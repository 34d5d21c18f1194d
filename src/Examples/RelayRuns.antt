-- ===== src/Examples/RelayRuns.antt =====
-- A relay whose right side closes while the left one is silent, with a byte left in a buffer.
use open_snell.Base.{◌≡◌, inr, refl, [], ◌∷◌, true, none, some, arith}
use open_snell.Io.{eof, op_error, reading, deadline}
use open_snell.Aead.Writer.{hide_eof}
use open_snell.Relay.Steps.{
  Half, buffered, fetches, ends, expires, writes, Pair, out_step, back_step, Source, start, Runs,
  begun, then_step, new_half,
}
use open_snell.Relay.Outcome.{Ended, relay_outcome}
use open_snell.Relay.Ends.{Bounded, Proceeds, relay_ends}

abbrev left : Source
left = record { held = []; input = 1 ∷ 2 ∷ 3 ∷ []; closing = none }

abbrev right : Source
right = record { held = []; input = []; closing = some eof }

-- Two bytes are fetched, of which one is read at first.
abbrev out_read : Half
out_read = record (new_half left) { held = 2 ∷ []; input = 3 ∷ []; pending = 1 ∷ [] }

abbrev back_over : Half
back_over = record (new_half right) { result = some none }

abbrev closing_pair : Pair
closing_pair = record { out = record out_read { expired = true }; back = back_over }

closes : Runs (start left right) 2 closing_pair
unfolding hide_eof
closes =
    then_step
      (then_step begun (
        out_step out_read
          (fetches (1 ∷ []) (2 ∷ []) (3 ∷ []) refl refl refl refl (omega arith) refl)))
      (back_step back_over (ends eof refl refl refl refl refl refl))

-- The byte in the buffer is read behind the deadline.
abbrev out_wrote : Half
out_wrote = record closing_pair.out { moved = 1 ∷ []; pending = [] }

abbrev out_again : Half
out_again = record out_wrote { held = []; pending = 2 ∷ [] }

abbrev writing_pair : Pair
writing_pair = record { out = out_again; back = back_over }

reads_on : Runs closing_pair 2 writing_pair
reads_on =
    then_step (then_step begun (out_step out_wrote (writes refl (omega arith))))
      (out_step out_again (buffered (2 ∷ []) [] refl refl (omega arith) refl))

abbrev out_last : Half
out_last = record out_again { moved = 1 ∷ 2 ∷ []; pending = [] }

abbrev over_pair : Pair
over_pair = record {
  out = record out_last { result = some (some (op_error reading deadline)) };
  back = record back_over { expired = true };
}

whole_run : Runs (start left right) 6 over_pair
whole_run =
    then_step
      (then_step
        (then_step (then_step closes (out_step out_wrote (writes refl (omega arith))))
          (out_step out_again (buffered (2 ∷ []) [] refl refl (omega arith) refl)))
        (out_step out_last (writes refl (omega arith))))
      (out_step over_pair.out (expires refl refl refl refl))

relay_outcome_example :
    Ended left over_pair.out (some (op_error reading deadline))
    × Ended right over_pair.back none
    × (over_pair.out.expired ≡ true)
    × (over_pair.back.expired ≡ true)
relay_outcome_example =
    relay_outcome left right 6 over_pair (some (op_error reading deadline)) none whole_run refl refl

relay_ends_example : Bounded 2 closing_pair writing_pair × Proceeds writing_pair
relay_ends_example =
    relay_ends left right 2 2 closing_pair writing_pair closes (inr (none, refl)) reads_on
