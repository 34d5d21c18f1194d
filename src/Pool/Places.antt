-- ===== src/Pool/Places.antt =====
-- Every connection of the client stands in one place, and what the pool holds is as `Ready` says.
use mathlib.Core.List.{Permᴰ}
use open_snell.Base.{
  ℕ, suc, ◌+◌, ◌≡◌, refl, List, [], ◌∷◌, ◌++◌, All, Bool, true, Option, none, some, arith,
}
use open_snell.Socks5.Text.{NetLib}
use open_snell.Mux.Client.{use_session, Local, Fate, dropped, hung, pooled}
use open_snell.Mux.Link.{Link}
use open_snell.Pool.Store.{
  Member, Item, failed, connection, other, PoolLib, IsPool, given, PoolConn, Store, Dial, refused,
  reached, new_member, factory, deleted, typed, mark_unusable, new_snell_pool, delete, or_made,
  pool_get, pool_conn_close,
}
use open_snell.Pool.Steps.{
  Event, begin, finish, pick, took, drop_conn, give_up, finished, step, run, new_client_pool,
}
use open_snell.Pool.Counts.{
  total, total-append, total-Perm, All-Perm, All-append-right, Picked, pick-Picked, same, below,
  below-suc,
}

abbrev pub at : ℕ → Item → ℕ
at k (failed e) = 0
at k (connection m) = same k m.id
at k other = 0

pub total-deleted : (k : ℕ) (l : List Item) → total (same k) (deleted l) ≡ total (at k) l
unfolding deleted
total-deleted k [] = refl
total-deleted k (failed e ∷ l) = omega (arith, total-deleted k l)
total-deleted k (connection m ∷ l) = omega (arith, total-deleted k l)
total-deleted k (other ∷ l) = omega (arith, total-deleted k l)

-- What holds of the sessions in the pool, of `held`.
module _ (Ready : Member → Type 0) where
  -- The pool holds nothing but connections.
  abbrev pub IsReady : Item → Type 0
  IsReady (failed e) = ⊥
  IsReady (connection m) = Ready m
  IsReady other = ⊥

  -- What a goroutine gets: a connection that its `Close` gives back to the pool.
  abbrev pub IsUsable : PoolConn → Type 0
  IsUsable c = (c.has_pool ≡ true) × Ready c.member

  -- What becomes of a session of a goroutine.
  abbrev pub Returns : Member → Fate → Type 0
  Returns m dropped = Unit {0}
  Returns m hung = ⊥
  Returns m (pooled s) = Ready (record m { session = s })

module _ {P : Type 0} (held : P → List Item) where
  -- The times that a number stands in the pool, with the goroutines and among the closed.
  abbrev pub times : ℕ → Store P → ℕ
  times k w =
      total (at k) (held w.pool)
      + total (λ (c : PoolConn). same k c.member.id) w.busy
      + total (same k) w.closed

  -- Every number up to `dialled` stands in one place, or in hand, and no other number does.
  pub record Owns (Ready : Member → Type 0) (hand : List ℕ) (w : Store P) : Type 0 where
    pub once : (k : ℕ) → total (same k) hand + times k w ≡ below k w.dialled
    pub ready : All (IsReady Ready) (held w.pool)
    pub usable : All (IsUsable Ready) w.busy

-- What an event may bring to a session.
abbrev pub AllowedEvent : (Local → Type 0) → Event → Type 0
AllowedEvent Allowed (begin dial) = Unit {0}
AllowedEvent Allowed (finish i target t) = Allowed t

module _ {P : Type 0} (lib : PoolLib P) (held : P → List Item) (Ready : Member → Type 0) where
  -- An operation of the pool that is given `puts` and gives `gets`.
  delete-Owns :
      (puts gets gone : List Item) (q : P) (hand : List ℕ) (w : Store P)
      → Permᴰ (puts ++ held w.pool) (gets ++ (gone ++ held q))
      → All (IsReady Ready) (puts ++ held w.pool)
      → Owns held Ready (deleted puts ++ hand) w
      → Owns held Ready (deleted gets ++ hand) (delete lib (gone, q) w)
  unfolding delete
  delete-Owns puts gets gone q hand w perm ready o =
      let all = All-Perm (IsReady Ready) perm ready in
      record {
        once = λ k. omega (
          arith,
          o.once k,
          total-Perm (at k) perm,
          total-append (at k),
          total-append (same k),
          total-deleted k,
        );
        ready =
            All-append-right (IsReady Ready) gone (held q)
              (All-append-right (IsReady Ready) gets _ all);
        usable = o.usable;
      }

  -- What is in hand goes to a goroutine.
  hold :
      (c : PoolConn) (w : Store P)
      → IsUsable Ready c
      → Owns held Ready (c.member.id ∷ []) w
      → Owns held Ready [] (record w { busy = c ∷ w.busy })
  hold c w u o = record {
    once = λ k. omega (arith, o.once k);
    ready = o.ready;
    usable = (u, o.usable);
  }

  take_idle :
      (dial : Dial) (x : Item) (w : Store P)
      → IsReady Ready x
      → Owns held Ready (deleted (x ∷ []) ++ []) w
      → Owns held Ready [] (took lib (or_made lib dial (some x) w))
  unfolding took or_made typed deleted
  take_idle dial (failed e) w r o = absurd r
  take_idle dial (connection m) w r o = hold (record { member = m; has_pool = true }) w (refl, r) o
  take_idle dial other w r o = absurd r

  take_new :
      (new : (k : ℕ) (l : Link) → Ready (new_member k l)) (dial : Dial) (w : Store P)
      → Owns held Ready [] w
      → Owns held Ready [] (took lib (or_made lib dial none w))
  unfolding took or_made factory typed
  take_new new (refused e) w o = o
  take_new new (reached l) w o =
      hold (record { member = new_member w.dialled l; has_pool = true })
        (record w { dialled = suc w.dialled }) (refl, new w.dialled l)
        (record {
          once = λ k. omega (arith, o.once k, below-suc k w.dialled);
          ready = o.ready;
          usable = o.usable;
        })

  take :
      (new : (k : ℕ) (l : Link) → Ready (new_member k l)) (dial : Dial) (i : Option Item)
      (gone : List Item) (q : P) (w : Store P)
      → Permᴰ (held w.pool) (given i ++ (gone ++ held q))
      → Owns held Ready [] w
      → Owns held Ready [] (took lib (or_made lib dial i (delete lib (gone, q) w)))
  unfolding deleted
  take new dial none gone q w perm o =
      take_new new dial _ (delete-Owns [] [] gone q [] w perm o.ready o)
  take new dial (some x) gone q w perm o =
      take_idle dial x _ (All-Perm (IsReady Ready) perm o.ready).0
        (delete-Owns [] (x ∷ []) gone q [] w perm o.ready o)

  drop_conn-Owns :
      (c : PoolConn) (w : Store P)
      → Owns held Ready (c.member.id ∷ []) w
      → Owns held Ready [] (drop_conn lib c w)
  unfolding drop_conn mark_unusable pool_conn_close
  drop_conn-Owns c w o = record {
    once = λ k. omega (arith, o.once k);
    ready = o.ready;
    usable = o.usable;
  }

  module _ (law : IsPool lib held) where
    give_up-Owns :
        (c : PoolConn) (f : Fate) (w : Store P)
        → c.has_pool ≡ true
        → Returns Ready c.member f
        → Owns held Ready (c.member.id ∷ []) w
        → Owns held Ready [] (give_up lib c f w)
    unfolding give_up pool_conn_close deleted
    give_up-Owns c dropped w e sound o = drop_conn-Owns c w o
    give_up-Owns c hung w e sound o = absurd sound
    give_up-Owns c (pooled s) w e sound o =
        let x : Item = connection (record c.member { session = s }) in
        rw e (
          delete-Owns (x ∷ []) [] (lib.put x w.pool).0 (lib.put x w.pool).1 [] w
            (law.put_keeps x w.pool) (sound, o.ready) o)

    pub new_client_pool-Owns : Owns held Ready [] (new_client_pool lib)
    unfolding new_snell_pool
    new_client_pool-Owns = record {
      once = λ k. rw (law.new_empty 10 150000) (ground arith);
      ready = rw (law.new_empty 10 150000) tt;
      usable = tt;
    }

    module _ (net : NetLib) (v2 : Bool) (Allowed : Local → Type 0)
        (new : (k : ℕ) (l : Link) → Ready (new_member k l))
        (returns : (target : List ℕ) (t : Local) (m : Member)
          → Allowed t
          → Ready m
          → Returns Ready m (use_session net v2 target t m.session).1) where
      finished-Owns :
          (target : List ℕ) (t : Local) (o : Option (PoolConn × List PoolConn)) (w : Store P)
          → Allowed t
          → Picked w.busy o
          → Owns held Ready [] w
          → Owns held Ready [] (finished lib net v2 target t o w)
      unfolding finished
      finished-Owns target t none w a p o = o
      finished-Owns target t (some (c, others)) w a p o =
          let (u, us) = All-Perm (IsUsable Ready) p o.usable in
          give_up-Owns c _ _ u.0 (returns target t c.member a u.1) (record {
            once =
                λ k. omega (arith, o.once k, total-Perm (λ (c : PoolConn). same k c.member.id) p);
            ready = o.ready;
            usable = us;
          })

      step-Owns :
          (e : Event) (w : Store P)
          → AllowedEvent Allowed e
          → Owns held Ready [] w
          → Owns held Ready [] (step lib net v2 e w)
      unfolding step pool_get
      step-Owns (begin dial) w a o =
          let (i, gone, q) = lib.get w.pool in take new dial i gone q w (law.get_keeps w.pool) o
      step-Owns (finish i target t) w a o =
          finished-Owns target t (pick i w.busy) w a (pick-Picked i w.busy) o

      pub run-Owns :
          (es : List Event) (w : Store P)
          → All (AllowedEvent Allowed) es
          → Owns held Ready [] w
          → Owns held Ready [] (run lib net v2 es w)
      unfolding run
      run-Owns [] w a o = o
      run-Owns (e ∷ es) w (a, rest) o = run-Owns es (step lib net v2 e w) rest (step-Owns e w a o)
