-- ===== src/Socks5/Closing.antt =====
-- `Close` of a listener with its accept loop: `SockListener` (components/socks5/server.go) and
-- `SnellServer` (components/snell/server.go), which have the flag and the loop alike.
use open_snell.Base.{◌≡◌, refl, List, [], ◌∷◌, Bool, true, false, if◌then◌else◌}
use open_snell.Socks5.Listener.{Accept, accepted, failed, accept_loop}

-- What the loop sees of the listener: the flag `closed`, and whether `Accept` may still succeed.
pub record Listening : Type 0 where
  pub closed : Bool
  pub listens : Bool

-- `Close`: the flag first, and then the listener.
unfoldable pub close : Listening → Listening
close l = record { closed = true; listens = false }

-- What happens to a listener: a connection comes in, `Accept` fails, or another goroutine calls `Close`.
pub data Happening {ℓ} (A : Type ℓ) : Type ℓ where
  arrives : A → Happening A
  breaks : Happening A
  closes : Happening A

-- What `Accept` returns. On a listener that is closed it always fails.
unfoldable pub accept_on {ℓ} : {A : Type ℓ} → Listening → A → Accept A
accept_on l a = if l.listens then accepted a else failed l.closed

unfoldable pub accepts_of {ℓ} : {A : Type ℓ} → Listening → List (Happening A) → List (Accept A)
unfolding accept_on close
accepts_of l [] = []
accepts_of l (arrives a ∷ more) = accept_on l a ∷ accepts_of l more
accepts_of l (breaks ∷ more) = failed l.closed ∷ accepts_of l more
accepts_of l (closes ∷ more) = failed (close l).closed ∷ accepts_of (close l) more

-- The connections that come in before `Close`.
abbrev pub in_time {ℓ} : {A : Type ℓ} → List (Happening A) → List A
in_time [] = []
in_time (arrives a ∷ more) = a ∷ in_time more
in_time (breaks ∷ more) = in_time more
in_time (closes ∷ more) = []

abbrev pub each {ℓ κ} : {A : Type ℓ} {B : Type κ} → (A → B) → List A → List B
each f [] = []
each f (a ∷ more) = f a ∷ each f more

-- The loop serves exactly the connections that come in before `Close`, in order, whatever errors
-- `Accept` returns between them.
pub accept_loop-close {ℓ κ} :
    {A : Type ℓ} {B : Type κ} (serve : A → B) (hs : List (Happening A))
    → accept_loop serve (accepts_of (record { closed = false; listens = true }) hs)
      ≡ each serve (in_time hs)
unfolding accept_loop accepts_of accept_on
accept_loop-close serve [] = refl
accept_loop-close serve (arrives a ∷ more) = rw (accept_loop-close serve more)
accept_loop-close serve (breaks ∷ more) = accept_loop-close serve more
accept_loop-close serve (closes ∷ more) = refl
