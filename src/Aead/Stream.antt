-- ===== src/Aead/Stream.antt =====
-- `streamConn` of components/aead/stream.go: the salts, and readers and writers made on first use.
use open_snell.Base.{ℕ, List, Bool, true, false, Option, none, some}
use open_snell.Io.{Conn, Error, Result, ok, err, panic, NetConn, plain, write_to_conn}
use open_snell.Aead.Types.{Aead}
use open_snell.Aead.Cipher.{CryptoLib, Cipher, salt_size, encrypter, decrypter}
use open_snell.Aead.Writer.{Writer, Sent, new_writer, read_from, writer_write}
use open_snell.Aead.Reader.{Reader, Relayed, new_reader, reader_read, write_to}

-- `conn` is the connection that the reader and the writer share; it is handed to each for a call.
pub record StreamConn (S : Type 0) : Type 0 where
  pub conn : S
  pub cipher : Cipher
  pub reader : Option (Reader S)
  pub writer : Option (Writer S)
  pub fallback : Option Cipher

-- `NewConn`
unfoldable pub new_conn : {S : Type 0} → S → Cipher → StreamConn S
new_conn c cipher = record {
  conn = c;
  cipher = cipher;
  reader = none;
  writer = none;
  fallback = none;
}

-- `NewConnWithFallback`
unfoldable pub new_conn_with_fallback : {S : Type 0} → S → Cipher → Cipher → StreamConn S
new_conn_with_fallback c cipher fallback = record {
  conn = c;
  cipher = cipher;
  reader = none;
  writer = none;
  fallback = some fallback;
}

abbrev pub no_error : Result Aead → Option Aead
no_error (ok a) = some a
no_error (err e) = none
no_error panic = none

abbrev pub or_cipher : Cipher → Option Cipher → Cipher
or_cipher cipher none = cipher
or_cipher cipher (some f) = f

-- `if c.r.switched { c.Cipher = c.fallback; c.fallback = nil }`
unfoldable pub switch_cipher : {S : Type 0} → Bool → StreamConn S → StreamConn S
switch_cipher true sc = record sc { cipher = or_cipher sc.cipher sc.fallback; fallback = none }
switch_cipher false sc = sc

abbrev pub keep_reader : {S : Type 0} → Reader S → StreamConn S → StreamConn S
keep_reader r sc = record sc { reader = some r; conn = r.conn }

unfoldable pub first_read :
    {S : Type 0} ⦃io : NetConn S⦄
    → ℕ
    → StreamConn S
    → Result (Reader S) × S
    → Result (List ℕ) × StreamConn S
unfolding switch_cipher
first_read n sc (ok r, c) =
    let (p, r') = reader_read n r in (p, switch_cipher r'.switched (keep_reader r' sc))
first_read n sc (err e, c) = (err e, record sc { conn = c })
first_read n sc (panic, c) = (panic, record sc { conn = c })

-- What `WriteTo` returns, with the writer that it filled.
abbrev pub Filled : Type 0
Filled = Result (ℕ × Option Error × Conn) × StreamConn Conn

unfoldable pub filled :
    (Reader Conn → StreamConn Conn → StreamConn Conn)
    → StreamConn Conn
    → Option (Result Relayed)
    → Option Filled
filled keep sc none = none
filled keep sc (some (ok t)) = some (ok (t.count, t.failure, t.sink), keep t.reader sc)
filled keep sc (some (err e)) = some (err e, sc)
filled keep sc (some panic) = some (panic, sc)

abbrev pub keep_and_switch : Reader Conn → StreamConn Conn → StreamConn Conn
keep_and_switch r sc = switch_cipher r.switched (keep_reader r sc)

unfoldable pub first_write_to : Conn → StreamConn Conn → Result (Reader Conn) × Conn → Option Filled
unfolding filled switch_cipher
first_write_to sink sc (ok r, c) = filled keep_and_switch sc (write_to sink r)
first_write_to sink sc (err e, c) = some (ok (0, some e, sink), record sc { conn = c })
first_write_to sink sc (panic, c) = some (panic, record sc { conn = c })

unfoldable pub send_salt : {S : Type 0} → Aead → Result (Unit {0}) × S → Result (Writer S) × S
send_salt a (ok u, c) = (ok (new_writer c a), c)
send_salt a (err e, c) = (err e, c)
send_salt a (panic, c) = (panic, c)

unfoldable pub make_writer :
    {S : Type 0} ⦃io : NetConn S⦄ → List ℕ → Result Aead × S → Result (Writer S) × S
unfolding send_salt
make_writer salt (ok a, c) = send_salt a (write_to_conn salt c)
make_writer salt (err e, c) = (err e, c)
make_writer salt (panic, c) = (panic, c)

abbrev pub keep_writer : {S : Type 0} → Writer S → StreamConn S → StreamConn S
keep_writer w sc = record sc { writer = some w; conn = w.conn }

-- The count and the error of a write.
abbrev pub Wrote : Type 0 → Type 0
Wrote S = Result (ℕ × Option Error) × StreamConn S

unfoldable pub wrote_by :
    {S : Type 0} → StreamConn S → Option (ℕ × Option Error × Writer S) → Option (Wrote S)
wrote_by sc none = none
wrote_by sc (some (n, e, w)) = some (ok (n, e), keep_writer w sc)

unfoldable pub with_writer :
    {S : Type 0}
    → (Writer S → Option (ℕ × Option Error × Writer S))
    → StreamConn S
    → Result (Writer S) × S
    → Option (Wrote S)
unfolding wrote_by
with_writer f sc (ok w, c) = wrote_by (record sc { conn = c }) (f w)
with_writer f sc (err e, c) = some (ok (0, some e), record sc { conn = c })
with_writer f sc (panic, c) = some (panic, record sc { conn = c })

abbrev pub sent_parts : {S : Type 0} → Option (Sent S) → Option (ℕ × Option Error × Writer S)
sent_parts none = none
sent_parts (some s) = some (s.count, s.failure, s.writer)

module _ {Block : Type 0} (lib : CryptoLib Block) where
  -- `fallback, _ = c.fallback.Decrypter(salt)`
  unfoldable pub fallback_aead : List ℕ → Option Cipher → Option Aead
  fallback_aead salt none = none
  fallback_aead salt (some f) = no_error (decrypter lib f salt)

  unfoldable pub make_reader :
      {S : Type 0} → List ℕ → Option Cipher → Result Aead × S → Result (Reader S) × S
  unfolding fallback_aead
  make_reader salt fallback (ok a, c) = (ok (new_reader c a (fallback_aead salt fallback)), c)
  make_reader salt fallback (err e, c) = (err e, c)
  make_reader salt fallback (panic, c) = (panic, c)

  unfoldable pub read_salt :
      {S : Type 0} → Cipher → Option Cipher → Result (List ℕ) × S → Result (Reader S) × S
  unfolding make_reader
  read_salt cipher fallback (ok salt, c) = make_reader salt fallback (decrypter lib cipher salt, c)
  read_salt cipher fallback (err e, c) = (err e, c)
  read_salt cipher fallback (panic, c) = (panic, c)

  -- `c.initReader()`
  unfoldable pub init_reader : {S : Type 0} ⦃io : NetConn S⦄ → StreamConn S → Result (Reader S) × S
  unfolding read_salt
  init_reader ⦃io⦄ sc = read_salt sc.cipher sc.fallback (io.read_full salt_size sc.conn)

  unfoldable pub stream_read_by :
      {S : Type 0} ⦃io : NetConn S⦄
      → ℕ
      → StreamConn S
      → Option (Reader S)
      → Result (List ℕ) × StreamConn S
  unfolding first_read init_reader
  stream_read_by n sc none = first_read n sc (init_reader sc)
  stream_read_by n sc (some r) =
      let (p, r') = reader_read n (record r { conn = sc.conn }) in (p, keep_reader r' sc)

  -- `Read(b)` with `len(b) == n`
  unfoldable pub stream_read :
      {S : Type 0} ⦃io : NetConn S⦄ → ℕ → StreamConn S → Result (List ℕ) × StreamConn S
  unfolding stream_read_by
  stream_read n sc = stream_read_by n sc sc.reader

  unfoldable pub stream_write_to_by : Conn → StreamConn Conn → Option (Reader Conn) → Option Filled
  unfolding filled first_write_to init_reader
  stream_write_to_by sink sc none = first_write_to sink sc (init_reader sc)
  stream_write_to_by sink sc (some r) =
      filled keep_reader sc (write_to sink (record r { conn = sc.conn }))

  -- `WriteTo(w)`
  unfoldable pub stream_write_to : Conn → StreamConn Conn → Option Filled
  unfolding stream_write_to_by
  stream_write_to sink sc = stream_write_to_by sink sc sc.reader

  -- `c.initWriter()`, with what `io.ReadFull(rand.Reader S, salt)` draws.
  unfoldable pub init_writer :
      {S : Type 0} ⦃io : NetConn S⦄ → Result (List ℕ) → StreamConn S → Result (Writer S) × S
  unfolding make_writer
  init_writer (ok salt) sc = make_writer salt (encrypter lib sc.cipher salt, sc.conn)
  init_writer (err e) sc = (err e, sc.conn)
  init_writer panic sc = (panic, sc.conn)

  -- The writer that there is, or a new one.
  unfoldable pub writer_of :
      {S : Type 0} ⦃io : NetConn S⦄
      → Result (List ℕ)
      → StreamConn S
      → Option (Writer S)
      → Result (Writer S) × S
  unfolding init_writer
  writer_of salt sc none = init_writer salt sc
  writer_of salt sc (some w) = (ok (record w { conn = sc.conn }), sc.conn)

  -- `Write(b)`
  unfoldable pub stream_write :
      {S : Type 0} ⦃io : NetConn S⦄ → Result (List ℕ) → List ℕ → StreamConn S → Option (Wrote S)
  unfolding with_writer writer_of
  stream_write salt b sc = with_writer (writer_write b) sc (writer_of salt sc sc.writer)

  -- `ReadFrom(r)`, but for what is left of the source.
  unfoldable pub stream_read_from :
      {S : Type 0} ⦃io : NetConn S⦄ → Result (List ℕ) → Conn → StreamConn S → Option (Wrote S)
  unfolding with_writer writer_of
  stream_read_from salt src sc =
      with_writer (λ w. sent_parts (read_from src w)) sc (writer_of salt sc sc.writer)
