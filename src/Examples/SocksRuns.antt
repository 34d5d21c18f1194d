-- ===== src/Examples/SocksRuns.antt =====
-- SOCKS addresses, packets and handshakes.
use open_snell.Socks5.Listening.{Deals, handle_socks-Deals}
use open_snell.Socks5.Listener.{Accept, accepted, failed, accept_loop, handle_socks}
use open_snell.Base.{
  true, false, ℕ, ◌+◌, ◌≤◌, ◌≡◌, ◌≢◌, refl, inl, List, [], ◌∷◌, ◌++◌, Option, none, some, arith,
  length, drop,
}
use open_snell.Io.{Conn, ok}
use open_snell.Socks5.{Addr, IsAddr, split_addr}
use open_snell.Socks5.Text.{
  parse_addr, parse_uint16, itoa, addr_string, to4, parse_addr_to_socks_addr, udp_addr, udp_addr_of,
}
use open_snell.Socks5.Packet.{decode_udp_packet, encode_udp_packet}
use open_snell.Socks5.Handshake.{server_handshake, client_handshake}
use open_snell.Socks5.Streams.{Agrees, read_addr-Agrees}
use open_snell.Socks5.Decode.{decode-encode, encode-decode}
use open_snell.Socks5.Parse.{parse_addr-IsWhole}
use open_snell.Socks5.Meet.{requests, replies, handshakes_meet}
use open_snell.Examples.Toys.{names_only, idle}

-- The name "go.dev" with port 80, and 127.0.0.1 with port 443.
abbrev name : List ℕ
name = b'g' ∷ b'o' ∷ b'.' ∷ b'd' ∷ b'e' ∷ b'v' ∷ []

abbrev named : Addr
named = 3 ∷ 6 ∷ (name ++ (0 ∷ 80 ∷ []))

abbrev loopback : Addr
loopback = 1 ∷ 127 ∷ 0 ∷ 0 ∷ 1 ∷ 1 ∷ 187 ∷ []

named-IsAddr : IsAddr named
unfolding split_addr
named-IsAddr = refl

loopback-IsAddr : IsAddr loopback
unfolding split_addr
loopback-IsAddr = refl

parse_name : parse_addr names_only name ≡ some named
unfolding parse_addr parse_uint16
parse_name = refl

show_name : addr_string names_only named ≡ ok (name ++ (b':' ∷ b'8' ∷ b'0' ∷ []))
unfolding addr_string itoa
show_name = refl

udp_of_loopback : udp_addr_of loopback ≡ ok (some (127 ∷ 0 ∷ 0 ∷ 1 ∷ [], 443))
unfolding udp_addr_of
udp_of_loopback = refl

mapped_to_four :
    parse_addr_to_socks_addr names_only
      (udp_addr (some (open_snell.Base.replicate 10 0 ++ (255 ∷ 255 ∷ 127 ∷ 0 ∷ 0 ∷ 1 ∷ []))) 443)
      []
    ≡ some loopback
unfolding parse_addr_to_socks_addr to4
mapped_to_four = refl

abbrev stream : Conn
stream = idle (loopback ++ (9 ∷ 9 ∷ []))

read_addr-Agrees_example : Agrees (split_addr stream.input) stream
read_addr-Agrees_example = read_addr-Agrees stream

decode-encode_example :
    decode_udp_packet (encode_udp_packet (some named) (1 ∷ 2 ∷ [])).0
    ≡ record { addr = some named; payload = 1 ∷ 2 ∷ []; failure = none }
decode-encode_example = decode-encode named (1 ∷ 2 ∷ []) named-IsAddr

packet_decodes :
    decode_udp_packet (0 ∷ 0 ∷ 0 ∷ (loopback ++ (5 ∷ [])))
    ≡ record { addr = some loopback; payload = 5 ∷ []; failure = none }
unfolding decode_udp_packet split_addr
packet_decodes = refl

encode-decode_example :
    (encode_udp_packet (some loopback) (5 ∷ []) ≡ (0 ∷ 0 ∷ 0 ∷ (loopback ++ (5 ∷ [])), none))
    × IsAddr loopback
encode-decode_example =
    encode-decode (0 ∷ 0 ∷ 0 ∷ (loopback ++ (5 ∷ []))) (5 ∷ []) loopback packet_decodes

parse_addr-IsWhole_example : (split_addr named ≡ some named) × (length named ≤ 259)
parse_addr-IsWhole_example = parse_addr-IsWhole names_only name named parse_name

handshakes_meet_example :
    let (rc, c') =
      client_handshake loopback 1 (record (idle []) { input = replies named ++ []; output = [] }) in
    let (rs, s') =
      server_handshake names_only name
        (record (idle []) { input = c'.output ++ (8 ∷ []); output = [] }) in
    (rs ≡ ok (loopback, 1))
    × (s'.input ≡ 8 ∷ [])
    × (s'.output ≡ replies named)
    × (rc ≡ ok named)
    × (c'.input ≡ [])
handshakes_meet_example =
    handshakes_meet names_only name (idle []) (idle []) loopback named (8 ∷ []) [] 1 refl refl
      loopback-IsAddr parse_name (inl refl)

handle_socks-Deals_example :
    Deals
      (server_handshake names_only name
        (record (idle []) { input = requests 3 loopback ++ (8 ∷ []) }))
      (handle_socks names_only name (record (idle []) { input = requests 3 loopback ++ (8 ∷ []) }))
handle_socks-Deals_example =
    handle_socks-Deals names_only name
      (record (idle []) { input = requests 3 loopback ++ (8 ∷ []) })

-- The loop goes on behind an error, and ends at the one behind `Close`.
abbrev accepts : List (Accept ℕ)
accepts = accepted 5 ∷ failed false ∷ accepted 6 ∷ failed true ∷ accepted 7 ∷ []

accept_loop_run : accept_loop (λ (n : ℕ). n) accepts ≡ 5 ∷ 6 ∷ []
unfolding accept_loop
accept_loop_run = refl
