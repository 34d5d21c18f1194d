-- ===== src/Socks5/Text.antt =====
-- Addresses from and to text: `ParseAddr`, `Addr.String`, `ParseAddrToSocksAddr`, `Addr.UDPAddr`.
-- Go's parser and printer of IP addresses and of `host:port` are the parameter `NetLib`.
use open_snell.Base.{
  ℕ, zero, suc, ◌+◌, ◌-◌, ◌*◌, ◌/◌, ◌%◌, List, [], ◌∷◌, ◌++◌, Option, none, some, Bool, true, false,
  ◌&&◌, ltb, leb, ◌==◌, if◌then◌else◌, length, get_or, take, drop, replicate, to_byte, be16,
  from_be16, to_u16,
}
use open_snell.Io.{Result, ok, panic}
use open_snell.Socks5.Defs.{Addr, atyp_ipv4, atyp_domain_name, atyp_ipv6}

-- Package `net` on texts as bytes; `none` stands for an error or a nil.
pub record NetLib : Type 0 where
  pub split_host_port : List ℕ → Option (List ℕ × List ℕ)
  pub join_host_port : List ℕ → List ℕ → List ℕ
  pub parse_ip : List ℕ → Option (List ℕ)
  pub ip_string : List ℕ → List ℕ

-- `bytes.Equal`
unfoldable pub bytes_eq : List ℕ → List ℕ → Bool
bytes_eq [] [] = true
bytes_eq [] (y ∷ ys) = false
bytes_eq (x ∷ xs) [] = false
bytes_eq (x ∷ xs) (y ∷ ys) = x == y && bytes_eq xs ys

-- `IP.To4`
unfoldable pub to4 : List ℕ → Option (List ℕ)
unfolding bytes_eq
to4 ip =
    if length ip == 4
    then some ip
    else (if length ip == 16 && bytes_eq (take 12 ip) (replicate 10 0 ++ (255 ∷ 255 ∷ []))
        then some (drop 12 ip)
        else none)

digits : ℕ → ℕ → List ℕ
digits zero n = []
digits (suc f) n =
    let more = digits f (n / 10) in
    if ltb n 10 then (n + b'0') ∷ [] else more ++ ((n % 10 + b'0') ∷ [])

-- `strconv.Itoa` on a number below 10 ^ 20.
unfoldable pub itoa : ℕ → List ℕ
unfolding digits
itoa n = digits 20 n

read_digits : ℕ → List ℕ → Option ℕ
read_digits acc [] = some acc
read_digits acc (d ∷ ds) =
    let rest = read_digits (acc * 10 + (d - b'0')) ds in
    if leb b'0' d && leb d b'9' then rest else none

-- `strconv.ParseUint(s, 10, 16)`
unfoldable pub parse_uint16 : List ℕ → Option ℕ
unfolding read_digits
parse_uint16 [] = none
parse_uint16 (d ∷ ds) = elim (read_digits 0 (d ∷ ds)) [
  | none ↦ none
  | some n ↦ if ltb n 65536 then some n else none
]

-- `copy` into a fresh slice of length `n`
abbrev fit : ℕ → List ℕ → List ℕ
fit n b = take n (b ++ replicate n 0)

unfoldable pub ip_addr : Option (List ℕ) → List ℕ → List ℕ
ip_addr (some ip4) ip = atyp_ipv4 ∷ fit 4 ip4
ip_addr none ip = atyp_ipv6 ∷ fit 16 ip

-- The part of `ParseAddr` before the port, by `net.ParseIP(host)`.
unfoldable pub host_addr : Option (List ℕ) → List ℕ → Option (List ℕ)
unfolding ip_addr
host_addr (some ip) host = some (ip_addr (to4 ip) ip)
host_addr none host =
    if ltb 255 (length host) then none else some (atyp_domain_name ∷ to_byte (length host) ∷ host)

unfoldable pub add_port : Option (List ℕ) → Option ℕ → Option Addr
add_port none p = none
add_port (some a) none = none
add_port (some a) (some p) = some (a ++ be16 p)

-- `ParseAddr`
unfoldable pub parse_addr : NetLib → List ℕ → Option Addr
unfolding host_addr add_port
parse_addr lib s = elim (lib.split_host_port s) [
  | none ↦ none
  | some (host, port) ↦ add_port (host_addr (lib.parse_ip host) host) (parse_uint16 port)
]

-- `net.Addr`, by the concrete type that the code asks for. A nil IP is `none`.
pub data NetAddr : Type 0 where
  udp_addr tcp_addr : Option (List ℕ) → ℕ → NetAddr
  other_addr : NetAddr

addr_ip : NetAddr → Option (List ℕ)
addr_ip (udp_addr ip port) = ip
addr_ip (tcp_addr ip port) = ip
addr_ip other_addr = none

addr_port : NetAddr → ℕ
addr_port (udp_addr ip port) = port
addr_port (tcp_addr ip port) = port
addr_port other_addr = 0

-- `ParseAddrToSocksAddr(addr)`, with `addr.String()`. `DefaultMask` is not nil on every IPv4 address.
unfoldable pub parse_addr_to_socks_addr : NetLib → NetAddr → List ℕ → Option Addr
unfolding addr_ip addr_port ip_addr
parse_addr_to_socks_addr lib a shown = elim (addr_ip a) [
  | none ↦ parse_addr lib shown
  | some ip ↦ some (ip_addr (to4 ip) ip ++ be16 (to_u16 (addr_port a)))
]

-- `Addr.String`: `host` and `port` of an address whose host is the bytes from `lo` on, `n` of them.
show_at : NetLib → (List ℕ → List ℕ) → ℕ → ℕ → Addr → Result (List ℕ)
show_at lib show lo n a =
    if ltb (length a) (lo + n + 2)
    then panic
    else ok (
        lib.join_host_port (show (take n (drop lo a)))
          (itoa (from_be16 (get_or a (lo + n) 0) (get_or a (lo + n + 1) 0))))

-- `Addr.String`. An index behind the end of the slice is a panic.
unfoldable pub addr_string : NetLib → Addr → Result (List ℕ)
unfolding show_at
addr_string lib a =
    if length a == 0
    then panic
    else (if get_or a 0 0 == atyp_domain_name
        then (if ltb (length a) 2 then panic else show_at lib (λ h. h) 2 (get_or a 1 0) a)
        else (if get_or a 0 0 == atyp_ipv4
            then show_at lib lib.ip_string 1 4 a
            else (if get_or a 0 0 == atyp_ipv6
                then show_at lib lib.ip_string 1 16 a
                else ok (lib.join_host_port [] []))))

udp_at : ℕ → Addr → Result (Option (List ℕ × ℕ))
udp_at n a =
    if ltb (length a) (1 + n + 2)
    then panic
    else ok (some (take n (drop 1 a), from_be16 (get_or a (1 + n) 0) (get_or a (1 + n + 1) 0)))

-- `Addr.UDPAddr`, on a slice whose capacity is its length.
unfoldable pub udp_addr_of : Addr → Result (Option (List ℕ × ℕ))
unfolding udp_at
udp_addr_of a =
    if length a == 0
    then ok none
    else (if get_or a 0 0 == atyp_ipv4
        then udp_at 4 a
        else (if get_or a 0 0 == atyp_ipv6 then udp_at 16 a else ok none))
