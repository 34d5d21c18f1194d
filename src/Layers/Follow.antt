-- ===== src/Layers/Follow.antt =====
-- Code that reads from a connection does the same over every connection that holds the same bytes.
use mathlib.Core.Path.{subst}
use open_snell.Base.{
  ltb, get_or, to_byte, from_be16, not, ◌==◌, ℕ, ◌+◌, ◌≤◌, ◌≡◌, refl, ap, ◌∙◌, List, [], ◌++◌,
  false, inl, inr, Bool-cases, arith, length, take, drop, leb, leb→le, length-take,
  take-append-drop,
}
use open_snell.Io.{
  Conn, Result, ok, err, panic, Action, ActionOn, NetConn, plain, bind_result, pure, crash,
  read_full,
}
use open_snell.Io.Streams.{ByteSource}
use open_snell.Socks5.Text.{itoa, NetLib}
use open_snell.Snell.Header.{
  fresh_buf, fill, index, read_target, read_command, skip_id, check_version, server_handshake,
}

fails :
    (n : ℕ) (p : List ℕ) (c : Conn) → leb n (length c.input) ≡ false → (read_full n c).0 ≡ ok p → ⊥
unfolding read_full
fails n p c short e = let no = rw short at e in cc

module _ {S : Type 0} ⦃io : NetConn S⦄ (src : ByteSource io) where
  open src use {Holds, read_full-Holds}

  -- Where `m` succeeds on the input of a connection, `k` succeeds over the source, with the same
  -- result, and what is left to read is the same.
  abbrev pub Follows : {A : Type 0} → Action A → ActionOn S A → Type 0
  Follows {A} m k =
      (a : A) (c c' : Conn) (s : S)
      → Holds c.input s
      → m c ≡ (ok a, c')
      → (s' : S) × (k s ≡ (ok a, s')) × Holds c'.input s'

  returned :
      {A : Type 0} (a b : A) (c c' : Conn) (s : S)
      → Holds c.input s
      → ◌≡◌ {A = Result A × Conn} (ok a, c) (ok b, c')
      → (s' : S) × (◌≡◌ {A = Result A × S} (ok a, s) (ok b, s')) × Holds c'.input s'
  returned a b c c' s h e =
      (s, ap (λ x. (x.0, s)) e, subst (λ (d : Conn). Holds d.input s) (ap (λ x. x.1) e) h)

  pure-Follows : {A : Type 0} (a : A) → Follows (pure a) (pure a)
  pure-Follows a b c c' s h e = returned a b c c' s h e

  crash-Follows : {A : Type 0} → Follows {A = A} crash crash
  crash-Follows {A} b c c' s h e =
      let no : ◌≡◌ {A = Result A} panic (ok b) = ap (λ x. x.0) e in absurd cc

  bind-Follows :
      {A B : Type 0} (m : Action A) (k : ActionOn S A) (f : A → Action B) (g : A → ActionOn S B)
      → Follows m k
      → ((a : A) → Follows (f a) (g a))
      → Follows (λ c. bind_result (m c) f) (λ s. bind_result (k s) g)
  bind-Follows {A} {B} m k f g hm hf b c c' s h e = go (m c) refl e
    where
      go :
          (x : Result A × Conn)
          → m c ≡ x
          → bind_result x f ≡ (ok b, c')
          → (s' : S) × (bind_result (k s) g ≡ (ok b, s')) × Holds c'.input s'
      go (ok a, c1) e1 e2 =
          let (s1, q1, h1) = hm a c c1 s h e1 in
          let (s2, q2, h2) = hf a b c1 c' s1 h1 e2 in (s2, rw q1 q2, h2)
      go (err e', c1) e1 e2 =
          let no : ◌≡◌ {A = Result B} (err e') (ok b) = ap (λ x. x.0) e2 in absurd cc
      go (panic, c1) e1 e2 =
          let no : ◌≡◌ {A = Result B} panic (ok b) = ap (λ x. x.0) e2 in absurd cc

  read_full-Follows : (n : ℕ) → Follows (read_full n) (io.read_full n)
  unfolding read_full
  read_full-Follows n p c c' s h e = elim (Bool-cases (leb n (length c.input))) [
    | inl enough ↦
        let long : n ≤ length c.input = leb→le n (length c.input) enough in
        let cut = take-append-drop n c.input in
        let (s', q, h') = read_full-Holds (take n c.input) (drop n c.input) s (rw cut h) in
        let len : length (take n c.input) ≡ n = omega (arith, length-take n c.input) in
        let q' : io.read_full n s ≡ (ok (take n c.input), s') = rw len at q in
        let e' : ◌≡◌ {A = Result (List ℕ) × Conn}
            (ok (take n c.input), record c { input = drop n c.input }) (ok p, c') =
          rw enough at e in
        let (s2, e2, h2) =
          returned (take n c.input) p (record c { input = drop n c.input }) c' s' h' e' in
        (s2, q' ∙ e2, h2)
    | inr short ↦
        let e' : (read_full n c).0 ≡ ok p = ap (λ x. x.0) e in absurd (fails n p c short e')
  ]

  fill-Follows : (buf : List ℕ) (n : ℕ) → Follows (fill buf n) (fill buf n)
  unfolding fill
  fill-Follows buf n = elim (Bool-cases (ltb (length buf) n)) [
    | inl over ↦ rw over (crash-Follows {A = List ℕ})
    | inr fits ↦ rw fits (
        bind-Follows (read_full n) (io.read_full n) (λ b. pure (b ++ drop n buf))
          (λ b. pure (b ++ drop n buf)) (read_full-Follows n) (λ b. pure-Follows (b ++ drop n buf)))
  ]

  index-Follows : (buf : List ℕ) (i : ℕ) → Follows (index buf i) (index buf i)
  unfolding index
  index-Follows buf i = elim (Bool-cases (ltb i (length buf))) [
    | inl inside ↦ rw inside (pure-Follows (get_or buf i 0))
    | inr over ↦ rw over (crash-Follows {A = ℕ})
  ]

  read_target-Follows :
      (lib : NetLib) (buf : List ℕ) (hlen : ℕ)
      → Follows (read_target lib buf hlen) (read_target lib buf hlen)
  unfolding read_target
  read_target-Follows lib buf hlen =
      bind-Follows (fill buf (to_byte (hlen + 2))) (fill buf (to_byte (hlen + 2))) _ _
        (fill-Follows buf (to_byte (hlen + 2)))
        λ buf'. bind-Follows (index buf' hlen) (index buf' hlen) _ _ (index-Follows buf' hlen) λ hi.
          bind-Follows (index buf' (to_byte (hlen + 1))) (index buf' (to_byte (hlen + 1))) _ _
            (index-Follows buf' (to_byte (hlen + 1)))
            (λ lo. pure-Follows (lib.join_host_port (take hlen buf') (itoa (from_be16 hi lo))))

  skip_id-Follows : (n : ℕ) (buf : List ℕ) → Follows (skip_id n buf) (skip_id n buf)
  unfolding skip_id
  skip_id-Follows n buf = elim (Bool-cases (ltb 0 n)) [
    | inl some_id ↦ rw some_id (fill-Follows buf n)
    | inr no_id ↦ rw no_id (pure-Follows buf)
  ]

  read_command-Follows :
      (lib : NetLib) (cmd : ℕ) (buf : List ℕ)
      → Follows (read_command lib cmd buf) (read_command lib cmd buf)
  unfolding read_command
  read_command-Follows lib cmd buf = elim (Bool-cases (cmd == 6)) [
    | inl udp ↦ let told : List ℕ × ℕ = ([], cmd) in rw udp (pure-Follows told)
    | inr other ↦ rw other (
        bind-Follows (fill buf 1) (fill buf 1) _ _ (fill-Follows buf 1) λ buf'.
          bind-Follows (read_target lib buf' (get_or buf' 0 0))
            (read_target lib buf' (get_or buf' 0 0)) _ _
            (read_target-Follows lib buf' (get_or buf' 0 0))
            (λ target. let told : List ℕ × ℕ = (target, cmd) in pure-Follows told))
  ]

  check_version-Follows :
      (lib : NetLib) (buf : List ℕ) → Follows (check_version lib buf) (check_version lib buf)
  unfolding check_version
  check_version-Follows lib buf = elim (Bool-cases (not (get_or buf 0 0 == 1))) [
    | inl foreign ↦ let told : List ℕ × ℕ = ([], 0) in rw foreign (pure-Follows told)
    | inr known ↦ rw known (
        bind-Follows (skip_id (get_or buf 2 0) buf) (skip_id (get_or buf 2 0) buf) _ _
          (skip_id-Follows (get_or buf 2 0) buf)
          (λ buf'. read_command-Follows lib (get_or buf 1 0) buf'))
  ]

  -- Where the server's handshake succeeds on some bytes, it succeeds over every connection that holds
  -- them, with the same target and command, and leaves the same bytes.
  pub server_handshake-Follows :
      (lib : NetLib) → Follows (server_handshake lib) (server_handshake lib)
  unfolding server_handshake
  server_handshake-Follows lib =
      bind-Follows (fill fresh_buf 3) (fill fresh_buf 3) _ _ (fill-Follows fresh_buf 3)
        (λ buf. check_version-Follows lib buf)
