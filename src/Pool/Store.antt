-- ===== src/Pool/Store.antt =====
-- components/snell/pool.go: the pool of sessions, over `pool.Pool` of icpz/pool.
use open_snell.Base.{
  ℕ, suc, List, [], ◌∷◌, ◌++◌, ◌≡◌, Bool, true, false, Option, none, some, if◌then◌else◌,
}
use mathlib.Core.List.{Permᴰ}
use open_snell.Io.{Error, Result, ok, err, text}
use open_snell.Mux.Link.{Link}
use open_snell.Mux.Client.{Session}
use open_snell.Mux.Position.{Part, stream_of}

-- A session, with the number of its connection among those that were dialled, and the stream that the
-- network delivers on that connection, which no code reads.
pub record Member : Type 0 where
  pub id : ℕ
  pub session : Session
  pub stream : List Part

-- A value of type `interface{}`: an `error`, a `net.Conn` or anything else.
pub data Item : Type 0 where
  failed : Error → Item
  connection : Member → Item
  other : Item

-- `pool.Pool`: `new` of a capacity and a lease, and the three operations. `get` hands out an item that
-- was put, or none, and then the factory makes one. Each of them also tells the items that it gives to
-- the deleter.
pub record PoolLib (P : Type 0) : Type 0 where
  pub new : ℕ → ℕ → P
  pub get : P → Option Item × List Item × P
  pub put : Item → P → List Item × P
  pub release_all : P → List Item × P

abbrev pub given : Option Item → List Item
given none = []
given (some x) = x ∷ []

-- The library loses no item and makes none up: what it holds was put, and leaves by `get` or by the
-- deleter. A new pool holds nothing, and `ReleaseAll` leaves nothing.
pub record IsPool {P : Type 0} (lib : PoolLib P) (held : P → List Item) : Type 0 where
  pub new_empty : (cap lease : ℕ) → held (lib.new cap lease) ≡ []
  pub get_keeps :
      (p : P) → let (i, gone, q) = lib.get p in Permᴰ (held p) (given i ++ (gone ++ held q))
  pub put_keeps :
      (x : Item) (p : P) → let (gone, q) = lib.put x p in Permᴰ (x ∷ held p) (gone ++ held q)
  pub release_all_ends :
      (p : P) → let (gone, q) = lib.release_all p in Permᴰ (held p) gone × (held q ≡ [])

-- `snellPoolConn`; `has_pool` says that the field `pool` is not nil.
pub record PoolConn : Type 0 where
  pub member : Member
  pub has_pool : Bool

-- The pool of a client, the connections that its goroutines hold, those that were closed, in the order
-- of their closing from the last, how many were dialled, and the bytes that each local connection got,
-- from the last.
pub record Store (P : Type 0) : Type 0 where
  pub pool : P
  pub busy : List PoolConn
  pub closed : List ℕ
  pub dialled : ℕ
  pub delivered : List (List ℕ)

-- What `net.Dial` returns, with all that the network will deliver on the connection.
pub data Dial : Type 0 where
  refused : Error → Dial
  reached : Link → Dial

-- `newSession`: nothing has been sent on a new connection.
abbrev pub new_member : ℕ → Link → Member
new_member k l = record {
  id = k;
  session = record {
    link = record l { now = record l.now { output = [] }; sent = [] };
    reply = false;
  };
  stream = stream_of l;
}

-- The factory of `newSnellPool`.
unfoldable pub factory : ℕ → Dial → Item
factory k (refused e) = failed e
factory k (reached l) = connection (new_member k l)

abbrev pub next_id : ℕ → Dial → ℕ
next_id k (refused e) = k
next_id k (reached l) = suc k

-- The connections that the deleter of `newSnellPool` closes.
unfoldable pub deleted : List Item → List ℕ
deleted [] = []
deleted (failed e ∷ gone) = deleted gone
deleted (connection m ∷ gone) = m.id ∷ deleted gone
deleted (other ∷ gone) = deleted gone

-- The `switch` of `snellPool.Get`.
unfoldable pub typed : Item → Result PoolConn
typed (failed e) = err e
typed (connection m) = ok (record { member = m; has_pool = true })
typed other = err (text "Invalid Type")

-- `MarkUnusable`
unfoldable pub mark_unusable : PoolConn → PoolConn
mark_unusable c = record c { has_pool = false }

module _ {P : Type 0} (lib : PoolLib P) where
  -- `newSnellPool`
  unfoldable pub new_snell_pool : ℕ → ℕ → Store P
  new_snell_pool cap lease = record {
    pool = lib.new cap lease;
    busy = [];
    closed = [];
    dialled = 0;
    delivered = [];
  }

  unfoldable pub delete : List Item × P → Store P → Store P
  unfolding deleted
  delete (gone, q) w = record w { pool = q; closed = deleted gone ++ w.closed }

  unfoldable pub or_made : Dial → Option Item → Store P → Result PoolConn × Store P
  unfolding factory typed
  or_made dial (some x) w = (typed x, w)
  or_made dial none w =
      (typed (factory w.dialled dial), record w { dialled = next_id w.dialled dial })

  -- `snellPool.Get`, with what the factory meets when it dials.
  unfoldable pub pool_get : Dial → Store P → Result PoolConn × Store P
  unfolding delete or_made
  pool_get dial w = let (i, gone, q) = lib.get w.pool in or_made dial i (delete (gone, q) w)

  -- `snellPoolConn.Close`
  unfoldable pub pool_conn_close : PoolConn → Store P → Store P
  unfolding delete
  pool_conn_close c w =
      if c.has_pool
      then delete (lib.put (connection c.member) w.pool) w
      else record w { closed = c.member.id ∷ w.closed }

  -- `snellPool.Close`
  unfoldable pub pool_close : Store P → Store P
  unfolding delete
  pool_close w = delete (lib.release_all w.pool) w
