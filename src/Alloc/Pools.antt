-- ===== src/Alloc/Pools.antt =====
-- `Allocator`: the pools, `Get` and `Put`.
use open_snell.Base.{
  ℕ, zero, suc, ◌+◌, List, [], ◌∷◌, not, ltb, ◌==◌, if◌then◌else◌, Option, none, some, length,
  replicate, to_u16,
}
use open_snell.Io.{Result, text, ok, err, panic}
use open_snell.Alloc.Bits.{shl, msb}

-- A slice from the start of an array: the array, whose length is the capacity, and the length.
pub record Buffer : Type 0 where
  pub array : List ℕ
  pub len : ℕ

abbrev pub cap : Buffer → ℕ
cap b = length b.array

-- The 17 pools by their index, each the buffers that it holds.
abbrev pub Allocator : Type 0
Allocator = ℕ → List Buffer

abbrev pub new_allocator : Allocator
new_allocator i = []

abbrev pub set : ℕ → List Buffer → Allocator → Allocator
set i pool a j = if j == i then pool else a j

-- `New` of pool `i`: `make([]byte, 1<<i)`
unfoldable pub fresh : ℕ → Buffer
fresh i = record { array = replicate (shl i) 0; len = shl i }

-- `Get` of a `sync.Pool` returns any buffer that it holds, or a new one: `k` stands for the choice.
unfoldable pub take_out : ℕ → ℕ → List Buffer → Buffer × List Buffer
take_out i k [] = (fresh i, [])
take_out i zero (b ∷ bs) = (b, bs)
take_out i (suc k) (b ∷ bs) = let (c, cs) = take_out i k bs in (c, b ∷ cs)

-- `buf[:size]`. A slice behind the capacity is a panic.
abbrev pub cut : Buffer → ℕ → Result (Option Buffer)
cut b size =
    if ltb (length b.array) size then panic else ok (some (record { array = b.array; len = size }))

-- `alloc.buffers[i].Get().([]byte)[:size]`
unfoldable pub get_at : ℕ → ℕ → ℕ → Allocator → Result (Option Buffer) × Allocator
get_at k i size a =
    if ltb i 17
    then (let (b, pool) = take_out i k (a i) in (cut b size, set i pool a))
    else (panic, a)

-- `Get(size)`: a nil slice is `none`. A negative size is refused as 0 is.
unfoldable pub get : ℕ → ℕ → Allocator → Result (Option Buffer) × Allocator
get k size a =
    if size == 0
    then (ok none, a)
    else (if ltb 65536 size
        then (ok none, a)
        else (if size == shl (msb size)
            then get_at k (msb size) size a
            else get_at k (to_u16 (msb size + 1)) size a))

-- `alloc.buffers[i].Put(buf)`
unfoldable pub put_at : ℕ → Buffer → Allocator → Result (Unit {0}) × Allocator
put_at i b a = if ltb i 17 then (ok tt, set i (b ∷ a i) a) else (panic, a)

unfoldable pub refuse_put : Allocator → Result (Unit {0}) × Allocator
refuse_put a = (err (text "allocator Put() incorrect buffer size"), a)

-- `Put(buf)`
unfoldable pub put : Buffer → Allocator → Result (Unit {0}) × Allocator
unfolding refuse_put
put b a =
    if cap b == 0
    then refuse_put a
    else (if ltb 65536 (cap b)
        then refuse_put a
        else (if not (cap b == shl (msb (cap b))) then refuse_put a else put_at (msb (cap b)) b a))

-- What happens to an allocator: the two operations, and the collector, which may take any buffer out
-- of a pool.
pub data Step : Allocator → Allocator → Type 0 where
  got : (k size : ℕ) (a : Allocator) → Step a (get k size a).1
  kept : (b : Buffer) (a : Allocator) → Step a (put b a).1
  collected : (i k : ℕ) (a : Allocator) → Step a (set i (take_out i k (a i)).1 a)

-- The allocators that `NewAllocator` leads to.
pub data IsReached : Allocator → Type 0 where
  made : IsReached new_allocator
  after : (a b : Allocator) → IsReached a → Step a b → IsReached b
