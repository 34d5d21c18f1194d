-- ===== src/Socks5/Defs.antt =====
-- Constants of RFC 1928, and addresses on the wire: `SplitAddr` and `ReadAddr`.
use open_snell.Base.{
  ℕ, ◌+◌, List, ◌∷◌, Option, none, some, ltb, ◌==◌, if◌then◌else◌, length, get_or, take, ◌≡◌,
}
use open_snell.Io.{Action, Error, short_buffer, socks, pure, fail, ◌>>=◌, read_full}

abbrev pub cmd_connect : ℕ
cmd_connect = 1

abbrev pub cmd_bind : ℕ
cmd_bind = 2

abbrev pub cmd_udp_associate : ℕ
cmd_udp_associate = 3

abbrev pub atyp_ipv4 : ℕ
atyp_ipv4 = 1

abbrev pub atyp_domain_name : ℕ
atyp_domain_name = 3

abbrev pub atyp_ipv6 : ℕ
atyp_ipv6 = 4

abbrev pub max_addr_len : ℕ
max_addr_len = 1 + 1 + 255 + 2

abbrev pub err_command_not_supported : Error
err_command_not_supported = socks 7

abbrev pub err_address_not_supported : Error
err_address_not_supported = socks 8

-- An address is its bytes: a type, the host, and a port of two bytes. A nil `Addr` is `none`.
abbrev pub Addr : Type 0
Addr = List ℕ

-- The `switch` of `SplitAddr`: the length that the first bytes announce.
addr_len : List ℕ → Option ℕ
addr_len b =
    if get_or b 0 0 == atyp_domain_name
    then (if ltb (length b) 2 then none else some (1 + 1 + get_or b 1 0 + 2))
    else (if get_or b 0 0 == atyp_ipv4
        then some (1 + 4 + 2)
        else (if get_or b 0 0 == atyp_ipv6 then some (1 + 16 + 2) else none))

cut_addr : List ℕ → Option ℕ → Option Addr
cut_addr b none = none
cut_addr b (some n) = if ltb (length b) n then none else some (take n b)

-- `SplitAddr`
unfoldable pub split_addr : List ℕ → Option Addr
unfolding addr_len cut_addr
split_addr b = if ltb (length b) 1 then none else cut_addr b (addr_len b)

-- An address that stands by itself.
abbrev pub IsAddr : Addr → Type 0
IsAddr a = split_addr a ≡ some a

-- The `switch` of `ReadAddr`, behind the address type.
read_addr_body : ℕ → Action Addr
read_addr_body atyp =
    if atyp == atyp_domain_name
    then (do
      l ← read_full 1
      rest ← read_full (get_or l 0 0 + 2)
      pure (atyp ∷ get_or l 0 0 ∷ rest))
    else (if atyp == atyp_ipv4
        then (do rest ← read_full (4 + 2); pure (atyp ∷ rest))
        else (if atyp == atyp_ipv6
            then (do rest ← read_full (16 + 2); pure (atyp ∷ rest))
            else fail err_address_not_supported))

-- `ReadAddr(r, b)` with `len(b) == room`. The address is the part of `b` that was read.
unfoldable pub read_addr : ℕ → Action Addr
unfolding read_addr_body
read_addr room =
    if ltb room max_addr_len
    then fail short_buffer
    else (do t ← read_full 1; read_addr_body (get_or t 0 0))
