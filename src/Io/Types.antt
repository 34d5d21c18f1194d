-- ===== src/Io/Types.antt =====
-- Errors, results and connections.
use Prim.Native.String.{String}
use open_snell.Base.{ℕ, List, Option, none, some}

-- `Op` of a `net.OpError`.
pub data Op : Type 0 where
  reading writing copying : Op

-- The values of Go's `error` that the program makes or passes on.
--   `deadline`: `os.ErrDeadlineExceeded`;  `op_error o e`: a `net.OpError` around `e`
--   `net e`: another error of the operating system or of the network
--   `text s`: `errors.New(s)`;  `unopened`: an AEAD's `Open` refused a message
--   `zero_chunk`: `aead.ErrZeroChunk`;  `socks n`: `socks5.Error(n)`
--   `app n msg`: `snell.NewAppError(n, msg)`
pub data Error : Type 0 where
  eof unexpected_eof short_buffer zero_chunk unopened deadline : Error
  op_error : Op → Error → Error
  net : ℕ → Error
  text : String → Error
  socks : ℕ → Error
  app : ℕ → List ℕ → Error

-- `panic` is a run-time error, such as an index out of range.
pub data Result {ℓ} (A : Type ℓ) : Type ℓ where
  ok : A → Result A
  err : Error → Result A
  panic : Result A

-- A connection as one end sees it: the bytes that are still to come, the error behind the last of
-- them, how the network cuts them (the `Read`s to come return at most one more than each number),
-- the fate of the `Write`s to come (`none`, or the bytes taken before an error; all go well behind
-- the list), and the bytes that were sent.
pub record Conn : Type 0 where
  pub input : List ℕ
  pub closing : Error
  pub cuts : List ℕ
  pub faults : List (Option (ℕ × Error))
  pub output : List ℕ

-- What a call does to a connection of type `S`, and on a connection with nothing in between.
abbrev pub ActionOn {ℓ} : Type 0 → Type ℓ → Type ℓ
ActionOn S A = S → Result A × S

abbrev pub Action {ℓ} : Type ℓ → Type ℓ
Action A = ActionOn Conn A

module _ {ℓ} {A : Type ℓ} {S : Type 0} where
  abbrev pub pure : A → ActionOn S A
  pure a c = (ok a, c)

  abbrev pub fail : Error → ActionOn S A
  fail e c = (err e, c)

  abbrev pub crash : ActionOn S A
  crash c = (panic, c)

  -- `return a, err`
  abbrev pub pure_or_fail : A → Option Error → ActionOn S A
  pure_or_fail a none = pure a
  pure_or_fail a (some e) = fail e

abbrev pub bind_result {ℓ κ} :
    {A : Type ℓ} {B : Type κ} {S : Type 0} → Result A × S → (A → ActionOn S B) → Result B × S
bind_result (ok a, c) f = f a c
bind_result (err e, c) f = (err e, c)
bind_result (panic, c) f = (panic, c)

infixl 5 ◌>>=◌ ◌>>◌
abbrev pub ◌>>=◌ {ℓ κ} :
    {A : Type ℓ} {B : Type κ} {S : Type 0} → ActionOn S A → (A → ActionOn S B) → ActionOn S B
◌>>=◌ m f c = bind_result (m c) f

abbrev pub ◌>>◌ {ℓ κ} :
    {A : Type ℓ} {B : Type κ} {S : Type 0} → ActionOn S A → ActionOn S B → ActionOn S B
m >> k = m >>= λ _. k
