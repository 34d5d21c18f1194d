-- ===== src/Layers/Replies.antt =====
-- The server's report of an error through all layers: `writeError` at the server, and the first bytes
-- of `clientSession.Read` at the client.
use mathlib.Core.Path.{subst}
use open_snell.Base.{
  ℕ, ◌≡◌, refl, sym, List, [], ◌∷◌, ◌++◌, append-nil, append_assoc, Option, none, some, inl, inr,
  length, to_byte, true,
}
use open_snell.Io.{Error, ok, err, app, NetConn}
use open_snell.Io.Streams.{Channel}
use open_snell.Aead.{Aead, IsAead}
use open_snell.Aead.Cipher.{CryptoLib, salt_size, decrypter}
use open_snell.Aead.Frames.{frames}
use open_snell.Aead.Stream.{StreamConn, stream_write}
use open_snell.Aead.FirstRead.{start_nonce, stream_write-fresh}
use open_snell.Snell.Session.{DialError, error_code, error_text, cut_text, report, read_reply}
use open_snell.Snell.Reply.{read_reply-Holds}
use open_snell.Tls.{Draw, IsDraw, TlsClient, TlsServer}
use open_snell.Layers.Loop.{looped}
use open_snell.Layers.Whole.{stream_source}
use open_snell.Layers.SealedStream.{sealed_reads}
use open_snell.Layers.ReplyStream.{ReplyHolds, reply_stream}
use open_snell.Layers.TlsEnds.{tls_client_conn, tls_server_conn}
use open_snell.Layers.TlsReplies.{hears, tls_reply_channel}

-- The client's session over its encrypted stream, whatever its `Write` does.
abbrev pub client_conn :
    {Block : Type 0}
    → CryptoLib Block
    → {C : Type 0} ⦃io : NetConn C⦄ → (List ℕ → StreamConn C → (ℕ × Option Error) × StreamConn C)
    → NetConn (StreamConn C)
client_conn lib {C} send = looped (sealed_reads lib {S = C}) send

module _ {Block : Type 0} (lib : CryptoLib Block) (a : Aead) (salt : List ℕ)
    (hs : length salt ≡ salt_size) (law : IsAead a) where
  module _ {S C : Type 0} ⦃out : NetConn S⦄ ⦃inp : NetConn C⦄ (ch : Channel out inp) where
    open ch use {sink, source, accept, arrive}

    -- The server writes for the first time: the client's end holds its bytes.
    reply-holds :
        (x : ℕ) (b : List ℕ) (s : StreamConn S) (c : StreamConn C)
        → s.writer ≡ none
        → decrypter lib s.cipher salt ≡ ok a
        → sink.Wrote [] s.conn
        → c.reader ≡ none
        → c.fallback ≡ none
        → decrypter lib c.cipher salt ≡ ok a
        → (s' : StreamConn S) × (stream_write lib (ok salt) (x ∷ b) s
            ≡ some (ok (length (x ∷ b), none), s'))
          × ReplyHolds lib a salt hs law source ch.rest (x ∷ b) (record c { conn = accept s'.conn })
    reply-holds x b s c first key fresh silent alone key' =
        let (ps, s', chunks, whole, e, wrote) =
          stream_write-fresh lib sink a salt x b s first key fresh in
        let there = arrive (salt ++ frames a (start_nonce a) ps) s'.conn wrote in
        (
          s',
          e,
          inr (
            ps,
            silent,
            alone,
            key',
            chunks,
            whole,
            rw (append_assoc salt (frames a (start_nonce a) ps) ch.rest) at there,
          ),
        )

    pub read_reply-through :
        (d : DialError) (s : StreamConn S) (c : StreamConn C)
        (send : List ℕ → StreamConn C → (ℕ × Option Error) × StreamConn C)
        → s.writer ≡ none
        → decrypter lib s.cipher salt ≡ ok a
        → sink.Wrote [] s.conn
        → c.reader ≡ none
        → c.fallback ≡ none
        → decrypter lib c.cipher salt ≡ ok a
        → (s' : StreamConn S) × (c' : StreamConn C) × (stream_write lib (ok salt) (report d) s
            ≡ some (ok (length (report d), none), s'))
          × (read_reply ⦃io = client_conn lib send⦄ (record c { conn = accept s'.conn })
              ≡ (err (app 0 (cut_text (error_text d))), c'))
    unfolding report
    read_reply-through d s c send first key fresh silent alone key' =
        let tail : List ℕ =
          error_code d ∷ to_byte (length (cut_text (error_text d))) ∷ cut_text (error_text d) in
        let (s', e, holds) = reply-holds 2 tail s c first key fresh silent alone key' in
        let stream = reply_stream lib a salt hs law source ch.rest in
        let there : StreamConn C = record c { conn = accept s'.conn } in
        let (c', q, left) =
          read_reply-Holds ⦃io = client_conn lib send⦄ (stream_source send stream) d [] there
            (subst (λ (b : List ℕ). stream.Holds b there) (sym (append-nil (report d))) holds) in
        (s', c', e, q)

  -- What the server cannot do for a target the client learns through both layers. A server that has
  -- written nothing yet on its end of the disguise and of the encrypted stream, over a connection that
  -- takes every write, writes the report of an error: `Write` takes it whole. A client that has read
  -- nothing yet on its own ends, whose cipher derives the same key from the salt, reads what came down
  -- the wire, however the network cuts it: the first bytes of its session are an `AppError` that carries
  -- the first 250 bytes of the error's text and the code 0. The salt has its length, and the cipher
  -- opens what it seals.
  pub read_reply-through_tls :
      (draw other : Draw) (d : DialError) (s : StreamConn TlsServer) (c : StreamConn TlsClient)
      (send : List ℕ → StreamConn TlsClient → (ℕ × Option Error) × StreamConn TlsClient)
      → IsDraw draw
      → s.conn.conn.faults ≡ []
      → s.conn.conn.output ≡ []
      → s.conn.first_response ≡ true
      → s.writer ≡ none
      → decrypter lib s.cipher salt ≡ ok a
      → c.conn.first_response ≡ true
      → c.conn.remain ≡ 0
      → c.reader ≡ none
      → c.fallback ≡ none
      → decrypter lib c.cipher salt ≡ ok a
      → (s' : StreamConn TlsServer) × (c' : StreamConn TlsClient) × (stream_write lib
            ⦃io = tls_server_conn draw⦄
            (ok salt)
            (report d)
            s
          ≡ some (ok (length (report d), none), s'))
        × (read_reply ⦃io = client_conn lib ⦃io = tls_client_conn other⦄ send⦄
              (record c { conn = hears c.conn s'.conn })
            ≡ (err (app 0 (cut_text (error_text d))), c'))
  read_reply-through_tls draw other d s c send drawn clean silent answers first key new fresh unread
        alone key' =
      read_reply-through ⦃out = tls_server_conn draw⦄ ⦃inp = tls_client_conn other⦄
        (tls_reply_channel draw other drawn c.conn new fresh) d s c send first key
        (record { clean = clean; sent = inl (refl, answers, silent) }) unread alone key'
