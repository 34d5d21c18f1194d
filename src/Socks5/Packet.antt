-- ===== src/Socks5/Packet.antt =====
-- `DecodeUDPPacket` and `EncodeUDPPacket`.
use open_snell.Base.{
  ℕ, ◌+◌, List, [], ◌∷◌, ◌++◌, Option, none, some, not, ltb, ◌==◌, if◌then◌else◌, ◌&&◌, length,
  get_or, drop,
}
use open_snell.Io.{Error, text}
use open_snell.Socks5.Defs.{Addr, split_addr}

-- Go's three results, all of them given on every path.
pub record Decoded : Type 0 where
  pub addr : Option Addr
  pub payload : List ℕ
  pub failure : Option Error

refused : Error → Decoded
refused e = record { addr = none; payload = []; failure = some e }

-- Without an address the error is set and the payload is still cut, behind three bytes.
cut_payload : List ℕ → Option Addr → Decoded
cut_payload packet none = record {
  addr = none;
  payload = drop 3 packet;
  failure = some (text "failed to read UDP header");
}
cut_payload packet (some a) = record {
  addr = some a;
  payload = drop (3 + length a) packet;
  failure = none;
}

-- `DecodeUDPPacket`
unfoldable pub decode_udp_packet : List ℕ → Decoded
unfolding refused cut_payload
decode_udp_packet packet =
    if ltb (length packet) 5
    then refused (text "insufficient length of packet")
    else (if not (get_or packet 0 0 == 0 && get_or packet 1 0 == 0)
        then refused (text "reserved fields should be zero")
        else (if not (get_or packet 2 0 == 0)
            then refused (text "discarding fragmented payload")
            else cut_payload packet (split_addr (drop 3 packet))))

-- `EncodeUDPPacket`
unfoldable pub encode_udp_packet : Option Addr → List ℕ → List ℕ × Option Error
encode_udp_packet none payload = ([], some (text "address is invalid"))
encode_udp_packet (some a) payload = (0 ∷ 0 ∷ 0 ∷ (a ++ payload), none)
