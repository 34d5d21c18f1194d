-- ===== src/Udp/Request.antt =====
-- The head of a forwarded packet, as the loop of `handleUDPRequest` reads it.
use open_snell.Base.{
  ℕ, ◌+◌, List, Option, none, some, not, ltb, ◌==◌, if◌then◌else◌, length, get_or, take, drop,
  from_be16,
}
use open_snell.Socks5.Text.{NetLib, itoa}
use open_snell.Snell.{command_udp_forward}

-- A packet to forward: `host:port`, and the bytes behind the head.
pub record Packet : Type 0 where
  pub target : List ℕ
  pub payload : List ℕ

-- The host is bytes `lo` up to `head`, shown by `show`; the port is at `head`. A chunk that ends
-- before the end of the port is refused.
unfoldable pub cut_packet : NetLib → (List ℕ → List ℕ) → ℕ → ℕ → List ℕ → Option Packet
cut_packet lib show lo n chunk =
    if ltb (length chunk) (lo + n + 2)
    then none
    else some (record {
      target =
          lib.join_host_port (show (take n (drop lo chunk)))
            (itoa (from_be16 (get_or chunk (lo + n) 0) (get_or chunk (lo + n + 1) 0)));
      payload = drop (lo + n + 2) chunk;
    })

-- The head by the length byte `hlen`, with the IP version behind it if that is 0.
unfoldable pub parse_head : NetLib → List ℕ → Option Packet
parse_head lib chunk =
    if get_or chunk 1 0 == 0
    then (if get_or chunk 2 0 == 4
        then cut_packet lib lib.ip_string 3 4 chunk
        else (if get_or chunk 2 0 == 6 then cut_packet lib lib.ip_string 3 16 chunk else none))
    else cut_packet lib (λ h. h) 2 (get_or chunk 1 0) chunk

-- What one `conn.Read` returned, `buf[:n]`; `none` ends the session.
unfoldable pub parse_packet : NetLib → List ℕ → Option Packet
parse_packet lib chunk =
    if ltb (length chunk) 5
    then none
    else (if not (get_or chunk 0 0 == command_udp_forward) then none else parse_head lib chunk)
