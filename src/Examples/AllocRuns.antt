-- ===== src/Examples/AllocRuns.antt =====
-- The allocator behind a `Put`, a `Get` and a collection.
use open_snell.Base.{◌*◌, ◌≤◌, ◌<◌, ◌≡◌, refl, [], ◌∷◌, some, arith}
use open_snell.Io.{ok, err, text}
use open_snell.Alloc.Bits.{shl, msb, bit_len}
use open_snell.Alloc.Pools.{
  Buffer, cap, Allocator, new_allocator, take_out, get_at, get, put_at, put, refuse_put, kept,
  IsReached, made, after,
}
use open_snell.Alloc.Filed.{IsFiled, IsReached-IsFiled}
use open_snell.Alloc.Classes.{get-Fits}

abbrev four : Buffer
four = record { array = 5 ∷ 6 ∷ 7 ∷ 8 ∷ []; len = 2 }

abbrev used : Allocator
used = (put four new_allocator).1

used-IsReached : IsReached used
used-IsReached = after new_allocator used made (kept four new_allocator)

-- Three bytes come from the pool of four.
abbrev cut_four : Buffer
cut_four = record { array = 5 ∷ 6 ∷ 7 ∷ 8 ∷ []; len = 3 }

get_3 : (get 0 3 used).0 ≡ ok (some cut_four)
unfolding get get_at take_out msb bit_len shl put put_at
get_3 = refl

put_3 :
    (put (record { array = 1 ∷ 2 ∷ 3 ∷ []; len = 3 }) used).0
    ≡ err (text "allocator Put() incorrect buffer size")
unfolding put refuse_put msb bit_len shl
put_3 = refl

IsReached-IsFiled_example : IsFiled used
IsReached-IsFiled_example = IsReached-IsFiled used used-IsReached

get-Fits_example :
    (b : Buffer) × ((get 0 3 used).0 ≡ ok (some b)) × (b.len ≡ 3) × (3 ≤ cap b) × (cap b < 2 * 3)
get-Fits_example = get-Fits 0 3 used used-IsReached (omega arith) (omega arith)
