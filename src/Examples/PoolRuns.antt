-- ===== src/Examples/PoolRuns.antt =====
-- The pool of the client, with three dials.
use open_snell.Mux.Reuse.{HasEnded, use_session-HasEnded}
use mathlib.Core.List.{Permᴰ}
use mathlib.Core.List.Permᴰ
use open_snell.Base.{
  ℕ, ◌≡◌, refl, List, [], ◌∷◌, ◌++◌, All, Option, true, some, none, ltb, if◌then◌else◌, Bool-cases,
  inl, inr, length,
}
use open_snell.Io.{eof}
use open_snell.Mux.Link.{whole, broken}
use open_snell.Mux.Client.{Fate, dropped, hung, pooled, Local}
use open_snell.Mux.Answers.{fresh}
use open_snell.Pool.Store.{
  PoolConn, Store, mark_unusable, pool_conn_close, delete, pool_get, or_made, factory, typed,
  new_snell_pool, Item, PoolLib, IsPool, given, Dial, refused, reached, pool_close,
}
use open_snell.Pool.Steps.{
  give_up, drop_conn, finished, took, pick, beside, Event, begin, finish, run, new_client_pool,
}
use open_snell.Pool.Counts.{total, same, below}
use open_snell.Io.Errors.{is_zero_chunk}
use open_snell.Pool.Places.{times, IsReady, IsUsable}
use open_snell.Pool.Owned.{MayStart, run-Owned, pool_close-all}
use open_snell.Examples.Toys.{names_only}

-- Idle items in a list, the last one put first, and no more of them than the capacity.
abbrev Shelf : Type 0
Shelf = ℕ × List Item

abbrev from_shelf : ℕ → List Item → Option Item × List Item × Shelf
from_shelf cap [] = (none, [], (cap, []))
from_shelf cap (x ∷ xs) = (some x, [], (cap, xs))

abbrev shelf_put : Item → Shelf → List Item × Shelf
shelf_put x (cap, xs) = if ltb (length xs) cap then ([], (cap, x ∷ xs)) else (x ∷ [], (cap, xs))

abbrev shelf : PoolLib Shelf
shelf = record {
  new = λ cap lease. (cap, []);
  get = λ p. from_shelf p.0 p.1;
  put = shelf_put;
  release_all = λ p. (p.1, (p.0, []));
}

abbrev on_shelf : Shelf → List Item
on_shelf p = p.1

from_shelf_keeps :
    (cap : ℕ) (xs : List Item)
    → let (i, gone, q) = from_shelf cap xs in Permᴰ xs (given i ++ (gone ++ on_shelf q))
from_shelf_keeps cap [] = Permᴰ.nil
from_shelf_keeps cap (x ∷ xs) = Permᴰ.refl (x ∷ xs)

shelf_put_keeps :
    (x : Item) (p : Shelf)
    → let (gone, q) = shelf_put x p in Permᴰ (x ∷ on_shelf p) (gone ++ on_shelf q)
shelf_put_keeps x (cap, xs) = elim (Bool-cases (ltb (length xs) cap)) [
  | inl e ↦ rw e (Permᴰ.refl (x ∷ xs))
  | inr e ↦ rw e (Permᴰ.refl (x ∷ xs))
]

shelf-IsPool : IsPool shelf on_shelf
shelf-IsPool = record {
  new_empty = λ cap lease. refl;
  get_keeps = λ p. from_shelf_keeps p.0 p.1;
  put_keeps = shelf_put_keeps;
  release_all_ends = λ p. (Permᴰ.refl p.1, refl);
}

-- A connection on which the server answers one session with a byte, and a local end.
abbrev line : Dial
line = reached (fresh [] [] ((0 ∷ 5 ∷ []) ∷ [])).link

abbrev local : Local
local = record { up = 1 ∷ []; cut = some whole }

abbrev lost : Local
lost = record { up = []; cut = some (broken 1 0 eof) }

abbrev go : List ℕ
go = b'g' ∷ b'o' ∷ []

-- Two goroutines get a connection each, and a third one none; the first connection goes back and is got
-- again.
abbrev busy_day : List Event
busy_day =
    begin line
    ∷ begin line
    ∷ begin (refused eof)
    ∷ finish 1 go local
    ∷ begin (refused eof)
    ∷ finish 0 go lost
    ∷ []

run-Owned_example :
    let w = run shelf names_only true busy_day (new_client_pool shelf) in
    ((k : ℕ) → times on_shelf k w ≡ below k w.dialled)
    × All (IsReady MayStart) (on_shelf w.pool)
    × All (IsUsable MayStart) w.busy
unfolding is_zero_chunk
run-Owned_example =
    run-Owned shelf on_shelf shelf-IsPool names_only true busy_day
      (tt, (tt, (tt, (tt, (tt, (refl, tt))))))

abbrev short_day : List Event
short_day = begin line ∷ begin line ∷ finish 1 go local ∷ finish 0 go lost ∷ []

-- The end of a goroutine leaves the others.
give_up-busy :
    (c : PoolConn) (f : Fate) (w : Store Shelf) → HasEnded f → (give_up shelf c f w).busy ≡ w.busy
unfolding give_up drop_conn mark_unusable pool_conn_close delete
give_up-busy c dropped w h = refl
give_up-busy c hung w h = absurd h
give_up-busy c (pooled s) w h = elim (Bool-cases c.has_pool) [
  | inl e ↦ rw e refl
  | inr e ↦ rw e refl
]

finished-busy :
    (target : List ℕ) (t : Local) (c : PoolConn) (cs : List PoolConn) (w : Store Shelf)
    → (finished shelf names_only true target t (some (c, cs)) w).busy ≡ cs
unfolding finished
finished-busy target t c cs w =
    give_up-busy c _ _ (use_session-HasEnded names_only true target t c.member.session)

short_day_idle : (run shelf names_only true short_day (new_client_pool shelf)).busy ≡ []
unfolding run took pool_get or_made delete factory typed new_snell_pool pick beside
short_day_idle = rw (finished-busy, finished-busy) refl

pool_close-all_example :
    let w = pool_close shelf (run shelf names_only true short_day (new_client_pool shelf)) in
    total (same 1) w.closed ≡ below 1 w.dialled
pool_close-all_example =
    pool_close-all shelf on_shelf shelf-IsPool names_only true short_day short_day_idle 1
