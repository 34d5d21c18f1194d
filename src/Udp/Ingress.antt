-- ===== src/Udp/Ingress.antt =====
-- `handleUDPIngress`: what is written back for a datagram from `ip` and `port`.
use open_snell.Base.{ℕ, List, [], ◌∷◌, ◌++◌, Option, none, some, ◌==◌, if◌then◌else◌, length, be16}
use open_snell.Socks5.Text.{to4}

-- `IP.To16` of an address that is not of version 4.
unfoldable pub to16 : List ℕ → List ℕ
to16 ip = if length ip == 16 then ip else []

ingress_head : Option (List ℕ) → List ℕ → List ℕ
unfolding to16
ingress_head (some ip4) ip = 4 ∷ ip4
ingress_head none ip = 6 ∷ to16 ip

-- The bytes of one reply: the version, the address, the port and the payload.
unfoldable pub ingress_reply : List ℕ → ℕ → List ℕ → List ℕ
unfolding ingress_head
ingress_reply ip port payload = ingress_head (to4 ip) ip ++ (be16 port ++ payload)
