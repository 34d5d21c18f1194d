-- ===== src/Snell/Defs.antt =====
-- components/snell/common.go: the bytes of the protocol.
use open_snell.Base.{ℕ}

abbrev pub command_ping : ℕ
command_ping = 0

abbrev pub command_connect : ℕ
command_connect = 1

abbrev pub command_connect_v2 : ℕ
command_connect_v2 = 5

abbrev pub command_udp : ℕ
command_udp = 6

abbrev pub command_udp_forward : ℕ
command_udp_forward = 1

abbrev pub response_tunnel : ℕ
response_tunnel = 0

abbrev pub response_ready : ℕ
response_ready = 0

abbrev pub response_pong : ℕ
response_pong = 1

abbrev pub response_error : ℕ
response_error = 2

abbrev pub version : ℕ
version = 1
