-- ===== src/Layers/TlsWrites.antt =====
-- Any number of `Write`s of one end of the TLS disguise.
use open_snell.Base.{
  ℕ, ◌≡◌, ◌⊎◌, refl, sym, ap, ◌∙◌, inl, inr, Bool, true, false, List, [], ◌∷◌, ◌++◌, append-nil,
  append_assoc, arith, length, All, joined,
}
use open_snell.Io.{Conn}
use open_snell.Tls.Writing.{still_first, write_loop}
use open_snell.Tls.Records.{Piece, records}
use open_snell.Tls.Sending.{Added, write_loop-records, write_loop-hello}

joined-append : (ps qs : List (List ℕ)) → joined (ps ++ qs) ≡ joined ps ++ joined qs
joined-append [] qs = refl
joined-append (p ∷ ps) qs =
    ap (λ (l : List ℕ). p ++ l) (joined-append ps qs) ∙ sym (append_assoc p (joined ps) (joined qs))

records-append : (ps qs : List (List ℕ)) → records (ps ++ qs) ≡ records ps ++ records qs
records-append [] qs = refl
records-append (p ∷ ps) qs =
    rw (records-append ps qs, append_assoc p (records ps) (records qs)) refl

All-append : (P : List ℕ → Type 0) (ps qs : List (List ℕ)) → All P ps → All P qs → All P (ps ++ qs)
All-append P [] qs hp hq = hq
All-append P (p ∷ ps) qs (h, hp) hq = (h, All-append P ps qs hp hq)

-- What the output is of an end that has sent the bytes `bs`: nothing yet, or the hello and records.
abbrev pub Disguised : (List ℕ → List ℕ) → List ℕ → Bool → List ℕ → Type 0
Disguised hello bs first output =
    ((bs ≡ []) × (first ≡ true) × (output ≡ []))
    ⊎ ((p : List ℕ) × (ps : List (List ℕ)) × Piece p
        × All Piece ps
        × (p ++ joined ps ≡ bs)
        × (first ≡ false)
        × (output ≡ hello p ++ records ps))

module _ (hello : List ℕ → List ℕ) where
  -- A `Write` of `b`, by an end that has sent `bs`.
  abbrev pub Adds : List ℕ → List ℕ → Bool → Conn → Type 0
  Adds bs b first c =
      (out : List ℕ) × Added (length b) out c (write_loop (length b) (length b) hello first b c)
      × Disguised hello (bs ++ b) (still_first first b) (c.output ++ out)

  write-first :
      (x : ℕ) (b : List ℕ) (first : Bool) (c : Conn)
      → c.faults ≡ []
      → first ≡ true
      → c.output ≡ []
      → Adds [] (x ∷ b) first c
  unfolding still_first
  write-first x b first c clean new fresh =
      let (p, ps, piece, pieces, whole, e) = write_loop-hello x (length (x ∷ b)) b hello c clean in
      let out = hello p ++ records ps in
      (out, rw new e, inr (p, ps, piece, pieces, whole, refl, ap (λ (o : List ℕ). o ++ out) fresh))

  write-later :
      (bs : List ℕ) (x : ℕ) (b : List ℕ) (first : Bool) (c : Conn) (p : List ℕ) (ps : List (List ℕ))
      → c.faults ≡ []
      → Piece p
      → All Piece ps
      → p ++ joined ps ≡ bs
      → first ≡ false
      → c.output ≡ hello p ++ records ps
      → Adds bs (x ∷ b) first c
  unfolding still_first
  write-later bs x b first c p ps clean piece pieces whole later so_far =
      let (qs, more, all, e) =
        write_loop-records (length (x ∷ b)) (length (x ∷ b)) hello (x ∷ b) c (omega arith) clean in
      (
        records qs,
        rw later e,
        inr (
          p,
          ps ++ qs,
          piece,
          All-append Piece ps qs pieces more,
          rw (joined-append ps qs, all, ← append_assoc p (joined ps) (x ∷ b), whole),
          refl,
          ap (λ (o : List ℕ). o ++ records qs) so_far
              ∙ append_assoc (hello p) (records ps) (records qs)
              ∙ ap (λ (l : List ℕ). hello p ++ l) (sym (records-append ps qs)),
        ),
      )

  pub write_loop-Adds :
      (bs b : List ℕ) (first : Bool) (c : Conn)
      → c.faults ≡ []
      → Disguised hello bs first c.output
      → Adds bs b first c
  unfolding still_first write_loop
  write_loop-Adds bs [] first c clean sent =
      ([], rw append-nil, rw (append-nil bs, append-nil c.output) sent)
  write_loop-Adds bs (x ∷ b) first c clean (inl (e, new, fresh)) =
      rw e (write-first x b first c clean new fresh)
  write_loop-Adds bs (x ∷ b) first c clean (inr (p, ps, piece, pieces, whole, later, so_far)) =
      write-later bs x b first c p ps clean piece pieces whole later so_far
