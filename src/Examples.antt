-- ===== src/Examples.antt =====
-- The theorems at concrete inputs, and runs of the code.
mod Toys
mod SocksRuns
mod SnellRuns
mod AeadRuns
mod TlsRuns
mod UdpRuns
mod AllocRuns
mod MuxRuns
mod PoolRuns
mod RelayRuns
mod StreamRuns
mod HttpRuns
mod SetupRuns
mod LayerRuns
