-- ===== src/Pool/Owned.antt =====
-- Every connection of the client has one owner, and is pooled only between two sessions.
use open_snell.Base.{ℕ, ◌≡◌, refl, List, [], ◌∷◌, All, Bool, some, arith}
use open_snell.Socks5.Text.{NetLib}
use open_snell.Mux.Client.{Fate, dropped, hung, pooled}
use open_snell.Mux.Position.{Part, stream_of, next_session}
use open_snell.Mux.Copied.{IsLocalCut}
use open_snell.Mux.Reuse.{IsFresh, IsSound, HasEnded, use_session-IsSound, use_session-HasEnded}
use open_snell.Pool.Store.{
  Item, Member, PoolLib, IsPool, PoolConn, Store, delete, deleted, pool_close,
}
use open_snell.Pool.Steps.{Event, begin, finish, run, new_client_pool}
use open_snell.Pool.Counts.{total, total-append, total-Perm, same, below}
use open_snell.Pool.Places.{
  at, total-deleted, IsReady, IsUsable, Returns, times, AllowedEvent, run-Owns,
  new_client_pool-Owns,
}

-- A connection that stands in front of its stream, or right behind one of the zero chunks in it.
pub data Between (stream : List Part) : List Part → Type 0 where
  in_front : Between stream stream
  behind_chunk :
      {ps qs : List Part} → Between stream ps → next_session ps ≡ some qs → Between stream qs

-- The next session may start: its first read looks for a reply, nothing was sent behind the last zero chunk
-- of the client, and no byte of an earlier session is still to come.
abbrev pub MayStart : Member → Type 0
MayStart m = IsFresh m.session × Between m.stream (stream_of m.session.link)

IsSound-Returns :
    (m : Member) (f : Fate)
    → Between m.stream (stream_of m.session.link)
    → IsSound m.session f
    → Returns MayStart m f
IsSound-Returns m dropped b h = tt
IsSound-Returns m hung b h = h
IsSound-Returns m (pooled s) b (fresh, next) = (fresh, behind_chunk b next)

HasEnded-Returns : (m : Member) (f : Fate) → HasEnded f → Returns (λ m. Unit {0}) m f
HasEnded-Returns m dropped h = tt
HasEnded-Returns m hung h = h
HasEnded-Returns m (pooled s) h = tt

-- The local connection of a session does not fail with ErrZeroChunk.
abbrev pub IsLocalEvent : Event → Type 0
IsLocalEvent e = AllowedEvent (λ t. IsLocalCut t.cut) e

any_event : (es : List Event) → All (AllowedEvent (λ t. Unit {0})) es
any_event [] = tt
any_event (begin dial ∷ es) = (tt, any_event es)
any_event (finish i target t ∷ es) = (tt, any_event es)

module _ {P : Type 0} (lib : PoolLib P) (held : P → List Item) (law : IsPool lib held) where
  -- Over a pool library that loses no item and makes none up, however many goroutines get their sessions
  -- and in whatever order they end, with any targets, answers of the network and dials, and local
  -- connections that do not fail with ErrZeroChunk: every connection that was dialled stands in exactly one
  -- place, in the pool, with one goroutine or among the closed ones, which hold it once, and no other
  -- connection is there. What the pool holds, and what each goroutine got, are connections on which the
  -- next session may start: in front of all that the network delivers on them, or right behind a zero chunk
  -- of it, waiting for a reply, and with nothing sent behind the client's last zero chunk.
  pub run-Owned :
      (net : NetLib) (v2 : Bool) (es : List Event)
      → All IsLocalEvent es
      → let w = run lib net v2 es (new_client_pool lib) in
        ((k : ℕ) → times held k w ≡ below k w.dialled)
        × All (IsReady MayStart) (held w.pool)
        × All (IsUsable MayStart) w.busy
  run-Owned net v2 es local =
      let o =
        run-Owns lib held MayStart law net v2 (λ t. IsLocalCut t.cut)
          (λ k l. ((refl, refl), in_front))
          (λ target t m clean (fresh, b).
            IsSound-Returns m _ b (use_session-IsSound net v2 target t m.session clean))
          es (new_client_pool lib) local (new_client_pool-Owns lib held MayStart law) in
      (λ k. omega (arith, o.once k), o.ready, o.usable)

  -- Over such a library, of which `ReleaseAll` gives all that it holds to the deleter: where all
  -- goroutines have ended, `Close` of the pool closes every connection that was dialled and is not
  -- closed yet. Then each is closed, and none of them twice.
  pub pool_close-all :
      (net : NetLib) (v2 : Bool) (es : List Event)
      → (run lib net v2 es (new_client_pool lib)).busy ≡ []
      → (k : ℕ)
      → let w = pool_close lib (run lib net v2 es (new_client_pool lib)) in
        total (same k) w.closed ≡ below k w.dialled
  unfolding pool_close delete
  pool_close-all net v2 es idle k =
      let w : Store P = run lib net v2 es (new_client_pool lib) in
      let o =
        run-Owns lib held (λ m. Unit {0}) law net v2 (λ t. Unit {0}) (λ k l. tt)
          (λ target t m a r. HasEnded-Returns m _ (use_session-HasEnded net v2 target t m.session))
          es (new_client_pool lib) (any_event es)
          (new_client_pool-Owns lib held (λ m. Unit {0}) law) in
      let (perm, none_left) = law.release_all_ends w.pool in
      let gone : List Item = (lib.release_all w.pool).0 in
      let idles : total (λ (c : PoolConn). same k c.member.id) w.busy ≡ 0 = rw idle refl in
      omega (
        arith,
        o.once k,
        idles,
        total-Perm (at k) perm,
        total-append (same k) (deleted gone) w.closed,
        total-deleted k gone,
      )
