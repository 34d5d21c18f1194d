-- ===== src/Udp/Formats.antt =====
-- The head of a packet, read back.
use open_snell.Base.{
  ℕ, suc, ◌+◌, ◌-◌, ◌≤◌, ◌<◌, ◌≡◌, ◌⊎◌, inl, inr, refl, sym, ap, ◌∙◌, List, [], ◌∷◌, ◌++◌,
  append_assoc, Option, none, some, true, false, arith, length, length-append, length-drop, take,
  drop, get_or, take-append, drop-append, get_or-append_right, ltb, lt→ltb, ltb-false, ◌==◌, ◌&&◌,
  if◌then◌else◌, be16, to_byte, from_be16, from_be16-be16, Bool-cases, Option-cases, ◌/◌,
}
use open_snell.Socks5.Text.{NetLib, itoa, to4, bytes_eq}
use open_snell.Udp.Request.{Packet, cut_packet, parse_head, parse_packet}
use open_snell.Udp.Ingress.{ingress_reply, to16}

cut_packet-append :
    (lib : NetLib) (show : List ℕ → List ℕ) (pre h payload : List ℕ) (hi lo : ℕ)
    → cut_packet lib show (length pre) (length h) (pre ++ (h ++ (hi ∷ lo ∷ payload)))
      ≡ some (record {
        target = lib.join_host_port (show h) (itoa (from_be16 hi lo));
        payload = payload;
      })
unfolding cut_packet
cut_packet-append lib show pre h payload hi lo =
    let tail : List ℕ = hi ∷ lo ∷ payload in
    let whole : List ℕ = pre ++ (h ++ tail) in
    let head : List ℕ = pre ++ (h ++ (hi ∷ lo ∷ [])) in
    let n : ℕ = length pre + length h in
    let size : n + 2 ≤ length whole =
      omega (arith, length-append pre (h ++ tail), length-append h tail) in
    let at : (j : ℕ) → get_or whole (n + j) 0 ≡ get_or tail j 0 = λ j.
      get_or-append_right pre (h ++ tail) (n + j) (length h + j) 0 (omega arith)
      ∙ get_or-append_right h tail (length h + j) j 0 (omega arith) in
    let first : get_or whole n 0 ≡ hi = ap (λ (i : ℕ). get_or whole i 0) (omega arith) ∙ at 0 in
    let cut : drop (n + 2) whole ≡ payload =
      ap (λ (l : List ℕ). drop (n + 2) l) (simp append_assoc)
      ∙ drop-append (n + 2) head payload (
          omega (arith, length-append pre (h ++ (hi ∷ lo ∷ [])), length-append h (hi ∷ lo ∷ []))) in
    rw (
      ltb-false (length whole) (n + 2) size,
      drop-append (length pre) pre (h ++ tail) refl,
      take-append (length h) h tail refl,
      first,
      at 1,
      cut,
    )

-- A packet to a host by name is understood: a name of one byte or more, its length in front, then the
-- port and the payload, which may be empty.
pub parse_packet-name :
    (lib : NetLib) (name payload : List ℕ) (hi lo : ℕ)
    → 1 ≤ length name
    → parse_packet lib (1 ∷ length name ∷ (name ++ (hi ∷ lo ∷ payload)))
      ≡ some
          (record { target = lib.join_host_port name (itoa (from_be16 hi lo)); payload = payload })
unfolding parse_packet parse_head
parse_packet-name lib name payload hi lo h =
    let body = name ++ (hi ∷ lo ∷ payload) in
    let named : (length name == 0) ≡ false = ground arith in
    rw
      (
        ltb-false (suc (suc (length body))) 5
            (omega (arith, length-append name (hi ∷ lo ∷ payload))),
        named,
      )
      (cut_packet-append lib (λ h. h) (1 ∷ length name ∷ []) name payload hi lo)

-- The address as the reply shows it: an IPv4 address in its four bytes.
abbrev pub shortest : Option (List ℕ) → List ℕ → List ℕ
shortest none ip = ip
shortest (some ip4) ip = ip4

to4_some : (ip ip4 : List ℕ) → to4 ip ≡ some ip4 → length ip4 ≡ 4
unfolding to4
to4_some ip ip4 e = elim (Bool-cases (length ip == 4)) [
  | inl four ↦ let same : ip ≡ ip4 = ground arith in rw (← same) (ground arith)
  | inr more ↦
      elim (Bool-cases (
        length ip == 16
        && bytes_eq (take 12 ip) (open_snell.Base.replicate 10 0 ++ (255 ∷ 255 ∷ [])))) [
          | inl mapped ↦
              let tail : drop 12 ip ≡ ip4 = ground arith in
              rw (← tail) (length-drop 12 ip ∙ ground arith)
          | inr other ↦ absurd (ground arith)
        ]
]

parse_packet-ip :
    (lib : NetLib) (ver : ℕ) (ip payload : List ℕ) (hi lo : ℕ)
    → ((ver ≡ 4) × (length ip ≡ 4)) ⊎ ((ver ≡ 6) × (length ip ≡ 16))
    → parse_packet lib (1 ∷ 0 ∷ ver ∷ (ip ++ (hi ∷ lo ∷ payload)))
      ≡ some (record {
        target = lib.join_host_port (lib.ip_string ip) (itoa (from_be16 hi lo));
        payload = payload;
      })
unfolding parse_packet parse_head
parse_packet-ip lib ver ip payload hi lo (inl (ev, e)) =
    rw
      (
        ltb-false (suc (suc (suc (length (ip ++ (hi ∷ lo ∷ payload)))))) 5
            (omega (arith, length-append ip (hi ∷ lo ∷ payload))),
        ev,
      )
      (ap (λ (n : ℕ). cut_packet lib lib.ip_string 3 n (1 ∷ 0 ∷ 4 ∷ (ip ++ (hi ∷ lo ∷ payload))))
          (sym e)
        ∙ cut_packet-append lib lib.ip_string (1 ∷ 0 ∷ 4 ∷ []) ip payload hi lo)
parse_packet-ip lib ver ip payload hi lo (inr (ev, e)) =
    rw
      (
        ltb-false (suc (suc (suc (length (ip ++ (hi ∷ lo ∷ payload)))))) 5
            (omega (arith, length-append ip (hi ∷ lo ∷ payload))),
        ev,
      )
      (ap (λ (n : ℕ). cut_packet lib lib.ip_string 3 n (1 ∷ 0 ∷ 6 ∷ (ip ++ (hi ∷ lo ∷ payload))))
          (sym e)
        ∙ cut_packet-append lib lib.ip_string (1 ∷ 0 ∷ 6 ∷ []) ip payload hi lo)

-- The two formats fit: a reply from an address of 16 bytes, as the socket reports them, with a 16-bit
-- port, is behind the bytes 1 and 0 a packet to that very address and port with the same payload,
-- where an IPv4 address is shown in its four bytes.
pub parse_packet-ingress_reply :
    (lib : NetLib) (ip payload : List ℕ) (port : ℕ)
    → length ip ≡ 16
    → port < 65536
    → parse_packet lib (1 ∷ 0 ∷ ingress_reply ip port payload)
      ≡ some (record {
        target = lib.join_host_port (lib.ip_string (shortest (to4 ip) ip)) (itoa port);
        payload = payload;
      })
unfolding ingress_reply
parse_packet-ingress_reply lib ip payload port h hp = elim (Option-cases (to4 ip)) [
  | inl e ↦
      let sixteen : (length ip == 16) ≡ true = ground arith in
      rw (e, to16, sixteen) (parse_packet-ip lib 6 ip payload _ _ (inr (refl, h)) ∙ shown ip)
  | inr (ip4, e) ↦
      rw e (parse_packet-ip lib 4 ip4 payload _ _ (inl (refl, to4_some ip ip4 e)) ∙ shown ip4)
]
  where
    shown :
        (a : List ℕ)
        → ◌≡◌ {A = Option Packet}
            (some (record {
              target =
                  lib.join_host_port
                    (lib.ip_string a)
                    (itoa (from_be16 (to_byte (port / 256)) (to_byte port)));
              payload = payload;
            }))
            (some (record {
              target = lib.join_host_port (lib.ip_string a) (itoa port);
              payload = payload;
            }))
    shown a = rw (from_be16-be16 port hp)
