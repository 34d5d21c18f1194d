-- ===== src/Relay/Ends.antt =====
-- The relay ends: the end of one copy ends the other.
use open_snell.Base.{
  Option-cases, List-cases, ℕ, ◌+◌, ◌*◌, ◌≤◌, ◌<◌, ◌≡◌, ◌⊎◌, inl, inr, refl, sym, ap, ◌∙◌, List, [],
  true, false, append-nil, Option, none, some, arith, length, length-append,
}
use open_snell.Io.{Error}
use open_snell.Relay.Steps.{
  Half, Copies, buffered, fetches, ends, expires, writes, breaks, interrupt, Pair, Step, out_step,
  back_step, Source, start, Runs, begun, then_step,
}
use open_snell.Relay.Linked.{Linked, Copies-expired, Runs-Linked}

abbrev pub Over : Half → Type 0
Over h = (r : Option Error) × (h.result ≡ some r)

-- The steps that are left to a copy with its deadline set: a read and a write for each byte in the buffers,
-- a write of what was read last, and the end. The bytes of the connection do not count.
abbrev left_by : Option (Option Error) → Half → ℕ
left_by none h = 1 + 2 * length h.held + length h.pending
left_by (some r) h = 0

abbrev pub steps_left : Half → ℕ
steps_left h = left_by h.result h

-- A copy whose reads of the connection are over: it has ended, or its deadline is set.
abbrev IsLate : Half → Type 0
IsLate h = Over h ⊎ (h.expired ≡ true)

Copies-running : {h h' : Half} → Copies h h' → h.result ≡ none
Copies-running (buffered p rest q x l e) = q
Copies-running (fetches p u rest q x late e l f) = q
Copies-running (ends e q x late f i g) = q
Copies-running (expires q x late f) = q
Copies-running (writes q l) = q
Copies-running (breaks k e q l) = q

-- What a step of a late copy does.
abbrev Settles : Half → Half → Type 0
Settles h h' = (steps_left h' < steps_left h) × (h'.input ≡ h.input)

Copies-Settles : {h h' : Half} → Copies h h' → h.expired ≡ true → Settles h h'
Copies-Settles {h} (buffered p rest q x l e) late = rw q (
  omega (
    arith,
    ap (λ (b : List ℕ). length b) e,
    ap (λ (b : List ℕ). length b) x,
    length-append p rest,
  ),
  refl,
)
Copies-Settles (fetches p u rest q x early e l f) late =
    let no : true ≡ false = sym late ∙ early in absurd cc
Copies-Settles (ends e q x early f i g) late = let no : true ≡ false = sym late ∙ early in absurd cc
Copies-Settles (expires q x l f) late = rw q (omega arith, refl)
Copies-Settles (writes q l) late = rw q (omega arith, refl)
Copies-Settles (breaks k e q l) late = rw q (omega arith, refl)

interrupt-left : (r : Option (Option Error)) (h : Half) → steps_left (interrupt r h) ≡ steps_left h
interrupt-left none h = refl
interrupt-left (some r) h = same h.result
  where
    same : (o : Option (Option Error)) → left_by o (record h { expired = true }) ≡ left_by o h
    same none = refl
    same (some x) = refl

interrupt-input : (r : Option (Option Error)) (h : Half) → (interrupt r h).input ≡ h.input
interrupt-input none h = refl
interrupt-input (some r) h = refl

-- Both copies of a relay in which one has ended.
abbrev BothLate : Pair → Type 0
BothLate p = IsLate p.out × IsLate p.back

-- A late copy that makes a step is not over.
late : {h h' : Half} → Copies h h' → IsLate h → h.expired ≡ true
late m (inl (r, e)) = let no : none ≡ some r = sym (Copies-running m) ∙ e in absurd cc
late m (inr x) = x

IsLate-interrupt : (r : Option (Option Error)) (h : Half) → IsLate h → IsLate (interrupt r h)
IsLate-interrupt none h l = l
IsLate-interrupt (some r) h l = inr refl

Step-Late :
    {p q : Pair}
    → Step p q
    → BothLate p
    → BothLate q
      × (steps_left q.out + steps_left q.back < steps_left p.out + steps_left p.back)
      × (q.out.input ≡ p.out.input)
      × (q.back.input ≡ p.back.input)
Step-Late {p} (out_step h m) (a, b) =
    let (fewer, same) = Copies-Settles m (late m a) in
    (
      (inr (Copies-expired m ∙ late m a), IsLate-interrupt h.result p.back b),
      omega (arith, interrupt-left h.result p.back),
      same,
      interrupt-input h.result p.back,
    )
Step-Late {p} (back_step h m) (a, b) =
    let (fewer, same) = Copies-Settles m (late m b) in
    (
      (IsLate-interrupt h.result p.out a, inr (Copies-expired m ∙ late m b)),
      omega (arith, interrupt-left h.result p.out),
      interrupt-input h.result p.out,
      same,
    )

-- What is left of a relay in which a copy has ended: steps within a bound, that read nothing more of either
-- connection.
abbrev pub Bounded : ℕ → Pair → Pair → Type 0
Bounded m p q =
    (m + (steps_left q.out + steps_left q.back) ≤ steps_left p.out + steps_left p.back)
    × (q.out.input ≡ p.out.input)
    × (q.back.input ≡ p.back.input)

Runs-Late : {p : Pair} {m : ℕ} {q : Pair} → BothLate p → Runs p m q → BothLate q × Bounded m p q
Runs-Late l begun = (l, (omega arith, refl, refl))
Runs-Late l (then_step run st) =
    let (l1, (bound, a, b)) = Runs-Late l run in
    let (l2, fewer, c, d) = Step-Late st l1 in (l2, (omega arith, c ∙ a, d ∙ b))

-- A copy that runs, and is in its `Write`: only its sink can make it go on.
abbrev pub IsWriting : Half → Type 0
IsWriting h = (h.result ≡ none) × (0 < length h.pending)

-- What a late copy may do: nothing more, its `Write`, or a step in its `Read`.
abbrev Goes : Half → Type 0
Goes h = Over h ⊎ (IsWriting h ⊎ ((h' : Half) × Copies h h'))

reads_on :
    (h : Half) → h.result ≡ none → h.pending ≡ [] → h.expired ≡ true → (h' : Half) × Copies h h'
reads_on h q x l = elim (List-cases h.held) [
  | inl empty ↦ (_, expires q x l empty)
  | inr more ↦ (_, buffered h.held [] q x more (sym (append-nil h.held)))
]

late-Goes : (h : Half) → IsLate h → Goes h
late-Goes h (inl o) = inl o
late-Goes h (inr l) = elim (Option-cases h.result) [
  | inr o ↦ inl o
  | inl q ↦ elim (List-cases h.pending) [
    | inr more ↦ inr (inl (q, more))
    | inl empty ↦ inr (inr (reads_on h q empty l))
  ]
]

-- Both have ended, or one of them waits for its sink, or a step is possible.
abbrev pub Proceeds : Pair → Type 0
Proceeds q =
    (Over q.out × Over q.back) ⊎ ((IsWriting q.out ⊎ IsWriting q.back) ⊎ ((q' : Pair) × Step q q'))

both-Proceeds : (q : Pair) → Goes q.out → Goes q.back → Proceeds q
both-Proceeds q (inl o) (inl b) = inl (o, b)
both-Proceeds q (inr (inl w)) b = inr (inl (inl w))
both-Proceeds q (inr (inr (h, m))) b = inr (inr (_, out_step h m))
both-Proceeds q (inl o) (inr (inl w)) = inr (inl (inr w))
both-Proceeds q (inl o) (inr (inr (h, m))) = inr (inr (_, back_step h m))

one-BothLate : (p : Pair) → Linked p → Over p.out ⊎ Over p.back → BothLate p
one-BothLate p (a, b) (inl (r, e)) = (inl (r, e), inr (rw e at a))
one-BothLate p (a, b) (inr (r, e)) = (inr (rw e at b), inl (r, e))

-- The end of one copy ends the relay, but for a `Write` that its sink holds up. Once one copy has ended,
-- whatever the other source does, the relay reads nothing more of either connection; it makes at most two
-- steps for each byte that lies in the buffers above the other connection, one for each byte that was read
-- and not written, and one for the end; and at each point both copies have ended, or one of them is in its
-- `Write` and waits for its sink alone, or a step is possible.
pub relay_ends :
    (l r : Source) (n m : ℕ) (p q : Pair)
    → Runs (start l r) n p
    → Over p.out ⊎ Over p.back
    → Runs p m q
    → Bounded m p q × Proceeds q
relay_ends l r n m p q run over more =
    let ((a, b), bound) = Runs-Late (one-BothLate p (Runs-Linked run) over) more in
    (bound, both-Proceeds q (late-Goes q.out a) (late-Goes q.back b))
