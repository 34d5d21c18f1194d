-- ===== src/Mux/Drains.antt =====
-- The loop that reads up to the next error: it ends, and what it leaves.
use open_snell.Base.{
  ℕ, zero, suc, ◌<◌, ◌≡◌, inl, inr, ap, List, [], some, arith, length, List-cases, take, drop, ◌∷◌,
  refl, length-drop,
}
use open_snell.Io.Laws.{read_cut, read_end}
use open_snell.Mux.Link.{Link, advance, link_read, relay_buffer_size, drain}
use open_snell.Mux.Server.{read_chunks}

-- The part of a link that a `Read` may change, as it stands in front of an error.
abbrev pub with_cuts : List ℕ → List ℕ → Link → Link
with_cuts input cuts l = record l { now = record l.now { input = input; cuts = cuts } }

pub drain_lem :
    (f : ℕ) (l : Link)
    → length l.now.input < f
    → (cuts : List ℕ) × (drain f l ≡ some (l.now.closing, advance (with_cuts [] cuts l)))
unfolding drain link_read
drain_lem zero l h = absurd (omega arith)
drain_lem (suc f) l h = elim (List-cases l.now.input) [
  | inl e ↦
      let stops = read_end relay_buffer_size l.now (omega arith) e in
      (
        l.now.cuts,
        rw stops (ap (λ (b : List ℕ). some (l.now.closing, advance (with_cuts b l.now.cuts l))) e),
      )
  | inr more ↦
      let (k, lo, hi, e) = read_cut relay_buffer_size l.now (omega arith) more in
      let shorter : length (drop k l.now.input) < f = omega (arith, length-drop k l.now.input) in
      let (cuts, rest) =
        drain_lem f (with_cuts (drop k l.now.input) (drop 1 l.now.cuts) l) shorter in
      (cuts, rw e rest)
]

-- The loop of `handleUDPRequest` over the reads ends too.
pub read_chunks_lem :
    (f : ℕ) (l : Link)
    → length l.now.input < f
    → (chunks : List (List ℕ)) × (read_chunks f l ≡ some chunks)
unfolding read_chunks link_read
read_chunks_lem zero l h = absurd (omega arith)
read_chunks_lem (suc f) l h = elim (List-cases l.now.input) [
  | inl e ↦ let stops = read_end relay_buffer_size l.now (omega arith) e in ([], rw stops)
  | inr more ↦
      let (k, lo, hi, e) = read_cut relay_buffer_size l.now (omega arith) more in
      let shorter : length (drop k l.now.input) < f = omega (arith, length-drop k l.now.input) in
      let (chunks, rest) =
        read_chunks_lem f (with_cuts (drop k l.now.input) (drop 1 l.now.cuts) l) shorter in
      (take k l.now.input ∷ chunks, rw (e, rest) refl)
]
