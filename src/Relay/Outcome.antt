-- ===== src/Relay/Outcome.antt =====
-- What a copy has done when it ends.
use open_snell.Base.{
  ℕ, ◌≡◌, ◌⊎◌, inl, inr, refl, sym, ◌∙◌, List, [], ◌++◌, append_assoc, append-nil, true, Option,
  none, some, take,
}
use open_snell.Io.{Error, op_error, writing}
use open_snell.Io.Errors.{is_timeout}
use open_snell.Aead.Writer.{hide_eof}
use open_snell.Relay.Steps.{
  Half, Copies, buffered, fetches, ends, expires, writes, breaks, interrupt, Pair, Step, out_step,
  back_step, Source, start, Runs, begun, then_step, drop_timeout,
}
use open_snell.Relay.Linked.{Linked, Runs-Linked}

abbrev pub given : Source → List ℕ
given s = s.held ++ s.input

-- Of a copy out of a source, once it has ended with an error `r`: all was written and `r` is the source's;
-- or the deadline came behind what was written, and nothing that was read is lost; or a write failed, with
-- what was read before it written, and the first `k` bytes of what was read last.
abbrev pub Ended : Source → Half → Option Error → Type 0
Ended s h r =
    ((e : Error) × (s.closing ≡ some e) × (h.moved ≡ given s) × (r ≡ hide_eof e))
    ⊎ ((h.moved ++ h.input ≡ given s) × (drop_timeout r ≡ none) × (h.expired ≡ true))
    ⊎ ((before : List ℕ) × (k : ℕ) × (e : Error) × (before ++ (h.pending ++ (h.held ++ h.input))
          ≡ given s)
        × (h.moved ≡ before ++ take k h.pending)
        × (r ≡ some (op_error writing e)))

abbrev Copied : Source → Half → Option (Option Error) → Type 0
Copied s h none = h.moved ++ (h.pending ++ (h.held ++ h.input)) ≡ given s
Copied s h (some r) = Ended s h r

record IsCopy (s : Source) (h : Half) : Type 0 where
  pub same : h.closing ≡ s.closing
  pub copied : Copied s h h.result

running :
    (s : Source) (h : Half)
    → IsCopy s h
    → h.result ≡ none
    → h.moved ++ (h.pending ++ (h.held ++ h.input)) ≡ given s
running s h c q = rw q at (c.copied)

Copies-IsCopy : {s : Source} {h h' : Half} → Copies h h' → IsCopy s h → IsCopy s h'
unfolding drop_timeout is_timeout
Copies-IsCopy {s} {h} (buffered p rest q x l e) c =
    let whole : h.moved ++ ((p ++ rest) ++ h.input) ≡ given s = rw (x, e) at (running s h c q) in
    record { same = c.same; copied = rw (q, ← append_assoc p rest h.input) whole }
Copies-IsCopy {s} {h} (fetches p u rest q x late e l f) c =
    let whole : h.moved ++ (p ++ (u ++ rest)) ≡ given s = rw (x, e, f) at (running s h c q) in
    record { same = c.same; copied = rw q whole }
Copies-IsCopy {s} {h} (ends e q x late f i g) c =
    let whole : h.moved ++ [] ≡ given s = rw (x, f, i) at (running s h c q) in
    record {
      same = c.same;
      copied = inl (e, sym c.same ∙ g, sym (append-nil h.moved) ∙ whole, refl);
    }
Copies-IsCopy {s} {h} (expires q x late f) c =
    let whole : h.moved ++ h.input ≡ given s = rw (x, f) at (running s h c q) in
    record { same = c.same; copied = inr (inl (whole, refl, late)) }
Copies-IsCopy {s} {h} (writes q l) c = record {
  same = c.same;
  copied = rw q (append_assoc h.moved h.pending (h.held ++ h.input) ∙ running s h c q);
}
Copies-IsCopy {s} {h} (breaks k e q l) c = record {
  same = c.same;
  copied = inr (inr (h.moved, k, e, running s h c q, refl, refl));
}

Copied-expired :
    (s : Source) (h : Half) (r : Option (Option Error))
    → Copied s h r
    → Copied s (record h { expired = true }) r
Copied-expired s h none c = c
Copied-expired s h (some r) (inl c) = inl c
Copied-expired s h (some r) (inr (inl (whole, quiet, x))) = inr (inl (whole, quiet, refl))
Copied-expired s h (some r) (inr (inr c)) = inr (inr c)

interrupt-IsCopy :
    {s : Source} {h : Half} (r : Option (Option Error)) → IsCopy s h → IsCopy s (interrupt r h)
interrupt-IsCopy none c = c
interrupt-IsCopy {s} {h} (some r) c = record {
  same = c.same;
  copied = Copied-expired s h h.result c.copied;
}

abbrev BothCopies : Source → Source → Pair → Type 0
BothCopies l r p = IsCopy l p.out × IsCopy r p.back

Step-BothCopies : {l r : Source} {p q : Pair} → Step p q → BothCopies l r p → BothCopies l r q
Step-BothCopies (out_step h m) (a, b) = (Copies-IsCopy m a, interrupt-IsCopy h.result b)
Step-BothCopies (back_step h m) (a, b) = (interrupt-IsCopy h.result a, Copies-IsCopy m b)

Runs-BothCopies : (l r : Source) {n : ℕ} {p : Pair} → Runs (start l r) n p → BothCopies l r p
Runs-BothCopies l r begun =
    (record { same = refl; copied = refl }, record { same = refl; copied = refl })
Runs-BothCopies l r (then_step run st) = Step-BothCopies st (Runs-BothCopies l r run)

both_late :
    (p : Pair) (el er : Option Error)
    → Linked p
    → p.out.result ≡ some el
    → p.back.result ≡ some er
    → (p.out.expired ≡ true) × (p.back.expired ≡ true)
both_late p el er (a, b) e f = (rw f at b, rw e at a)

-- However the two goroutines interleave, when Relay returns, each direction has ended in one of three ways:
-- everything was written, and its error is the one that its source ended with, or none for the end of file;
-- or the deadline that the other direction set stopped it with all that it had read written, which is no
-- error of Relay's; or a write failed, and all but a part of what was read last was written, with nothing
-- else lost or out of order. Both connections have their read deadline set then.
pub relay_outcome :
    (l r : Source) (n : ℕ) (p : Pair) (el er : Option Error)
    → Runs (start l r) n p
    → p.out.result ≡ some el
    → p.back.result ≡ some er
    → Ended l p.out el × Ended r p.back er × (p.out.expired ≡ true) × (p.back.expired ≡ true)
relay_outcome l r n p el er run e f =
    let (a, b) = Runs-BothCopies l r run in
    let (late, late') = both_late p el er (Runs-Linked run) e f in
    (rw e at (a.copied), rw f at (b.copied), late, late')
