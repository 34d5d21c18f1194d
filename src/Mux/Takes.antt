-- ===== src/Mux/Takes.antt =====
-- The handshake takes bytes of the stream, and nothing gives any back.
use open_snell.Base.{
  ℕ, ◌+◌, ◌≤◌, ◌<◌, ◌≡◌, refl, List, [], not, arith, length, length-drop, get_or, take, drop, ltb,
  leb, leb→le, ltb-false, ap, ◌++◌, ◌==◌, Bool-cases, inl, inr, to_byte,
}
use open_snell.Io.{plain, Action, Conn, Result, ok, err, panic, bind_result, ◌>>=◌, read_full}
use open_snell.Io.Laws.{read_full_enough, read_full_short, short_error}
use open_snell.Socks5.Text.{NetLib}
use open_snell.Snell.{version, command_udp}
use open_snell.Snell.Header.{
  fresh_buf, length-fresh_buf, fill, index, skip_id, read_target, read_command, check_version,
  server_handshake,
}

abbrev pub Shrinks {ℓ} : {A : Type ℓ} → Action A → Type 0
Shrinks m = (c : Conn) → length (m c).1.input ≤ length c.input

bind_result-input {ℓ κ} :
    {A : Type ℓ} {B : Type κ} (x : Result A × Conn) (f : A → Action B)
    → ((a : A) → Shrinks (f a))
    → length (bind_result x f).1.input ≤ length x.1.input
bind_result-input (ok a, c) f h = h a c
bind_result-input (err e, c) f h = omega arith
bind_result-input (panic, c) f h = omega arith

bind-Shrinks {ℓ κ} :
    {A : Type ℓ} {B : Type κ} (m : Action A) (f : A → Action B)
    → Shrinks m
    → ((a : A) → Shrinks (f a))
    → Shrinks (m >>= f)
bind-Shrinks m f hm hf c = omega (arith, bind_result-input (m c) f hf, hm c)

read_full-Shrinks : (n : ℕ) → Shrinks (read_full n)
unfolding read_full
read_full-Shrinks n c = elim (Bool-cases (leb n (length c.input))) [
  | inl e ↦ rw e (omega (arith, length-drop n c.input))
  | inr e ↦ rw e (omega arith)
]

fill-Shrinks : (buf : List ℕ) (n : ℕ) → Shrinks (fill buf n)
unfolding fill
fill-Shrinks buf n c = elim (Bool-cases (ltb (length buf) n)) [
  | inl e ↦ rw e (omega arith)
  | inr e ↦ rw e (bind-Shrinks (read_full n) _ (read_full-Shrinks n) (λ b d. omega arith) c)
]

index-Shrinks : (buf : List ℕ) (i : ℕ) → Shrinks (index buf i)
unfolding index
index-Shrinks buf i c = elim (Bool-cases (ltb i (length buf))) [
  | inl e ↦ rw e (omega arith)
  | inr e ↦ rw e (omega arith)
]

read_target-Shrinks : (lib : NetLib) (buf : List ℕ) (n : ℕ) → Shrinks (read_target lib buf n)
unfolding read_target
read_target-Shrinks lib buf n =
    bind-Shrinks (fill buf (to_byte (n + 2))) _ (fill-Shrinks buf (to_byte (n + 2))) (λ b.
      bind-Shrinks (index b n) _ (index-Shrinks b n) (λ hi.
        bind-Shrinks (index b (to_byte (n + 1))) _ (index-Shrinks b (to_byte (n + 1)))
          (λ lo c. omega arith)))

read_command-Shrinks : (lib : NetLib) (cmd : ℕ) (buf : List ℕ) → Shrinks (read_command lib cmd buf)
unfolding read_command
read_command-Shrinks lib cmd buf c = elim (Bool-cases (cmd == command_udp)) [
  | inl e ↦ rw e (omega arith)
  | inr e ↦ rw e (
      bind-Shrinks (fill buf 1) _ (fill-Shrinks buf 1)
        (λ b.
          bind-Shrinks (read_target lib b (get_or b 0 0)) _
            (read_target-Shrinks lib b (get_or b 0 0)) (λ t d. omega arith))
        c)
]

skip_id-Shrinks : (n : ℕ) (buf : List ℕ) → Shrinks (skip_id n buf)
unfolding skip_id
skip_id-Shrinks n buf c = elim (Bool-cases (ltb 0 n)) [
  | inl e ↦ rw e (fill-Shrinks buf n c)
  | inr e ↦ rw e (omega arith)
]

check_version-Shrinks : (lib : NetLib) (buf : List ℕ) → Shrinks (check_version lib buf)
unfolding check_version
check_version-Shrinks lib buf c = elim (Bool-cases (not (get_or buf 0 0 == version))) [
  | inl e ↦ rw e (omega arith)
  | inr e ↦ rw e (
      bind-Shrinks (skip_id (get_or buf 2 0) buf) _ (skip_id-Shrinks (get_or buf 2 0) buf)
        (λ b. read_command-Shrinks lib (get_or buf 1 0) b) c)
]

pub server_handshake-Shrinks : (lib : NetLib) → Shrinks (server_handshake lib)
unfolding server_handshake
server_handshake-Shrinks lib =
    bind-Shrinks (fill fresh_buf 3) _ (fill-Shrinks fresh_buf 3) (λ b. check_version-Shrinks lib b)

-- A handshake that returns has taken the three bytes in front at least.
pub server_handshake-takes :
    (lib : NetLib) (c c' : Conn) (t : List ℕ × ℕ)
    → server_handshake lib c ≡ (ok t, c')
    → length c'.input < length c.input
unfolding server_handshake fill skip_id
server_handshake-takes lib c c' t h = elim (Bool-cases (leb 3 (length c.input))) [
  | inl e ↦
      let b : List ℕ = take 3 c.input ++ drop 3 fresh_buf in
      let rest : Conn = record c { input = drop 3 c.input } in
      let fits : 3 ≤ length c.input = leb→le 3 (length c.input) e in
      let taken : server_handshake lib c ≡ check_version lib b rest =
        rw
          (
            ltb-false (length fresh_buf) 3 (omega (arith, length-fresh_buf)),
            read_full_enough 3 c.input c fits,
          )
          refl in
      let end : check_version lib b rest ≡ (ok t, c') = cc in
      let same : (check_version lib b rest).1.input ≡ c'.input = rw end in
      omega (
        arith,
        ap (λ (l : List ℕ). length l) same,
        check_version-Shrinks lib b rest,
        length-drop 3 c.input,
        fits,
      )
  | inr e ↦
      let few : length c.input < 3 = ground arith in
      let failed : server_handshake lib c ≡ (err (short_error c c.input), record c { input = [] }) =
        rw
          (
            ltb-false (length fresh_buf) 3 (omega (arith, length-fresh_buf)),
            read_full_short 3 c.input c few,
          )
          refl in
      absurd (ground arith)
]
