-- ===== src/Pool/Steps.antt =====
-- The goroutines of the client (components/snell/client.go), by the order in which they use the pool.
use open_snell.Base.{ℕ, zero, suc, List, [], ◌∷◌, Bool, Option, none, some}
use open_snell.Io.{Result, ok, err, panic}
use open_snell.Socks5.Text.{NetLib}
use open_snell.Mux.Client.{Local, Fate, dropped, hung, pooled, use_session}
use open_snell.Pool.Store.{
  PoolLib, PoolConn, Store, Dial, mark_unusable, new_snell_pool, pool_get, pool_conn_close,
}

-- What happens next: a goroutine of `handleSnell` gets a session; or one of them, by its place in
-- `busy`, comes to its end, having had a target and a local connection.
pub data Event : Type 0 where
  begin : Dial → Event
  finish : ℕ → List ℕ → Local → Event

unfoldable pub beside {ℓ} : {A : Type ℓ} → A → Option (A × List A) → Option (A × List A)
beside x none = none
beside x (some (y, ys)) = some (y, x ∷ ys)

-- An element, by its place, and the others.
unfoldable pub pick {ℓ} : {A : Type ℓ} → ℕ → List A → Option (A × List A)
unfolding beside
pick i [] = none
pick zero (x ∷ xs) = some (x, xs)
pick (suc i) (x ∷ xs) = beside x (pick i xs)

module _ {P : Type 0} (lib : PoolLib P) where
  -- `GetSession` up to `StreamConn`
  unfoldable pub took : Result PoolConn × Store P → Store P
  took (ok c, w) = record w { busy = c ∷ w.busy }
  took (err e, w) = w
  took (panic, w) = w

  -- `DropSession`
  unfoldable pub drop_conn : PoolConn → Store P → Store P
  unfolding mark_unusable pool_conn_close
  drop_conn c w = pool_conn_close lib (mark_unusable c) w

  -- How `handleSnell` ends: with `DropSession`, or with the `Close` of `PutSession`. A goroutine that
  -- hangs keeps its session.
  unfoldable pub give_up : PoolConn → Fate → Store P → Store P
  unfolding drop_conn
  give_up c dropped w = drop_conn c w
  give_up c hung w = record w { busy = c ∷ w.busy }
  give_up c (pooled s) w =
      pool_conn_close lib (record c { member = record c.member { session = s } }) w

  unfoldable pub finished :
      NetLib → Bool → List ℕ → Local → Option (PoolConn × List PoolConn) → Store P → Store P
  unfolding give_up
  finished net v2 target t none w = w
  finished net v2 target t (some (c, others)) w =
      let (down, fate) = use_session net v2 target t c.member.session in
      give_up c fate (record w { busy = others; delivered = down ∷ w.delivered })

  unfoldable pub step : NetLib → Bool → Event → Store P → Store P
  unfolding took finished
  step net v2 (begin dial) w = took (pool_get lib dial w)
  step net v2 (finish i target t) w = finished net v2 target t (pick i w.busy) w

  unfoldable pub run : NetLib → Bool → List Event → Store P → Store P
  unfolding step
  run net v2 [] w = w
  run net v2 (e ∷ es) w = run net v2 es (step net v2 e w)

  -- The pool of `NewSnellClient`, with `MaxPoolCap` and `PoolTimeoutMS`.
  abbrev pub new_client_pool : Store P
  new_client_pool = new_snell_pool lib 10 150000
