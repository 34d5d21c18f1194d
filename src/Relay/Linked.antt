-- ===== src/Relay/Linked.antt =====
-- A copy whose partner has ended has its deadline set.
use open_snell.Base.{ℕ, ◌≡◌, refl, ◌∙◌, true, Option, none, some}
use open_snell.Io.{Error}
use open_snell.Relay.Steps.{
  Half, Copies, buffered, fetches, ends, expires, writes, breaks, interrupt, Pair, Step, out_step,
  back_step, Source, start, Runs, begun, then_step,
}

abbrev Awaits : Option (Option Error) → Half → Type 0
Awaits none h = Unit {0}
Awaits (some r) h = h.expired ≡ true

abbrev pub Linked : Pair → Type 0
Linked p = Awaits p.out.result p.back × Awaits p.back.result p.out

pub Copies-expired : {h h' : Half} → Copies h h' → h'.expired ≡ h.expired
Copies-expired (buffered p rest q x l e) = refl
Copies-expired (fetches p q rest a b c d e f) = refl
Copies-expired (ends e a b c d f g) = refl
Copies-expired (expires a b c d) = refl
Copies-expired (writes a b) = refl
Copies-expired (breaks k e a b) = refl

Awaits-interrupt : (r : Option (Option Error)) (h : Half) → Awaits r (interrupt r h)
Awaits-interrupt none h = tt
Awaits-interrupt (some r) h = refl

Awaits-Copies : (r : Option (Option Error)) {h h' : Half} → Copies h h' → Awaits r h → Awaits r h'
Awaits-Copies none m a = tt
Awaits-Copies (some r) m a = Copies-expired m ∙ a

pub result-interrupt : (r : Option (Option Error)) (h : Half) → (interrupt r h).result ≡ h.result
result-interrupt none h = refl
result-interrupt (some r) h = refl

Step-Linked : {p q : Pair} → Step p q → Linked p → Linked q
Step-Linked {p} (out_step h m) (a, b) = (
  Awaits-interrupt h.result p.back,
  rw (result-interrupt h.result p.back) (Awaits-Copies p.back.result m b),
)
Step-Linked {p} (back_step h m) (a, b) = (
  rw (result-interrupt h.result p.out) (Awaits-Copies p.out.result m a),
  Awaits-interrupt h.result p.out,
)

pub then-Linked : {s p : Pair} {n : ℕ} → Linked s → Runs s n p → Linked p
then-Linked l begun = l
then-Linked l (then_step run st) = Step-Linked st (then-Linked l run)

pub Runs-Linked : {l r : Source} {n : ℕ} {p : Pair} → Runs (start l r) n p → Linked p
Runs-Linked run = then-Linked (tt, tt) run
