-- ===== src/Layers/Through.antt =====
-- A request header through all layers: WriteHeader at the client, ServerHandshake at the server.
use mathlib.Core.Path.{subst}
use open_snell.Base.{
  to_byte, be16, to_u16, sym, ℕ, ◌<◌, ◌≤◌, ◌≡◌, refl, List, [], ◌∷◌, ◌++◌, append-nil, append_assoc,
  Bool, true, false, Option, none, some, inl, inr, length, if◌then◌else◌,
}
use open_snell.Io.{Conn, Error, ok, eof, NetConn, plain}
use open_snell.Io.Streams.{Channel}
use open_snell.Aead.{Aead, IsAead}
use open_snell.Aead.Cipher.{CryptoLib, Cipher, salt_size, decrypter}
use open_snell.Aead.Frames.{frames}
use open_snell.Aead.Stream.{StreamConn, new_conn, new_conn_with_fallback, stream_write}
use open_snell.Aead.FirstRead.{start_nonce, stream_write-first}
use open_snell.Socks5.Text.{NetLib, itoa}
use open_snell.Snell.Header.{header, server_handshake}
use open_snell.Snell.Connect.{server_handshake-header}
use open_snell.Layers.Loop.{looped}
use open_snell.Layers.Whole.{stream_source}
use open_snell.Layers.SealedStream.{sealed_reads, sealed_stream, SealedHolds, IsOther}
use open_snell.Layers.Follow.{server_handshake-Follows}

-- The server's handshake over the encrypted stream, whatever its `Write` does.
abbrev pub server_conn :
    {Block : Type 0}
    → CryptoLib Block
    → {S : Type 0} ⦃io : NetConn S⦄ → (List ℕ → StreamConn S → (ℕ × Option Error) × StreamConn S)
    → NetConn (StreamConn S)
server_conn lib {S} send = looped (sealed_reads lib {S = S}) send

abbrev quiet : List ℕ → Conn
quiet b = record { input = b; closing = eof; cuts = []; faults = []; output = [] }

module _ {Block : Type 0} (lib : CryptoLib Block) (main fb : Cipher) (am af : Aead) (salt : List ℕ)
    (hs : length salt ≡ salt_size) (hm : decrypter lib main salt ≡ ok am)
    (hf : decrypter lib fb salt ≡ ok af) (lm : IsAead am) (lf : IsAead af) (other : IsOther am af)
    {C S : Type 0} ⦃out : NetConn C⦄ ⦃inp : NetConn S⦄ (ch : Channel out inp) where
  open ch use {sink, source, accept, arrive}

  -- A client of either version writes some bytes: the server's end holds them.
  write-holds :
      (x : ℕ) (b : List ℕ) (v2 : Bool) (c : C)
      → sink.Wrote [] c
      → (sc : StreamConn C) × (stream_write lib
            (ok salt)
            (x ∷ b)
            (new_conn c (if v2 then main else fb))
          ≡ some (ok (length (x ∷ b), none), sc))
        × SealedHolds lib main fb am af salt hs hm hf lm lf other source ch.rest
            (x ∷ b)
            (new_conn_with_fallback (accept sc.conn) main fb)
  write-holds x b true c fresh =
      let (ps, sc, chunks, whole, e, wrote) =
        stream_write-first lib sink main am salt x b c hm fresh in
      let there = arrive (salt ++ frames am (start_nonce am) ps) sc.conn wrote in
      (
        sc,
        e,
        inr (
          accept sc.conn,
          ps,
          refl,
          chunks,
          whole,
          inl (rw (append_assoc salt (frames am (start_nonce am) ps) ch.rest) at there),
        ),
      )
  write-holds x b false c fresh =
      let (ps, sc, chunks, whole, e, wrote) =
        stream_write-first lib sink fb af salt x b c hf fresh in
      let there = arrive (salt ++ frames af (start_nonce af) ps) sc.conn wrote in
      (
        sc,
        e,
        inr (
          accept sc.conn,
          ps,
          refl,
          chunks,
          whole,
          inr (rw (append_assoc salt (frames af (start_nonce af) ps) ch.rest) at there),
        ),
      )

  -- Over the two ends of any connection that carries its bytes, a client of version 2 with the
  -- server's first cipher, or of version 1 with its fallback, sends the header of a request for a host
  -- of at most 253 bytes and a 16-bit port: `Write` takes it whole, and the server's handshake, over
  -- its own end of the encrypted stream, comes to the host, the port in decimal, and the CONNECT
  -- command of the client's version.
  pub server_handshake-through :
      (net : NetLib) (host : List ℕ) (port : ℕ) (v2 : Bool) (c : C)
      (send : List ℕ → StreamConn S → (ℕ × Option Error) × StreamConn S)
      → sink.Wrote [] c
      → length host ≤ 253
      → port < 65536
      → (sc : StreamConn C) × (t : StreamConn S) × (stream_write lib
            (ok salt)
            (header host port v2)
            (new_conn c (if v2 then main else fb))
          ≡ some (ok (length (header host port v2), none), sc))
        × (server_handshake ⦃io = server_conn lib send⦄ net
              (new_conn_with_fallback (accept sc.conn) main fb)
            ≡ (ok (net.join_host_port host (itoa port), if v2 then 5 else 1), t))
  unfolding header
  server_handshake-through net host port v2 c send fresh short small =
      let told : List ℕ =
        (if v2 then 5 else 1) ∷ 0 ∷ to_byte (length host) ∷ (host ++ be16 (to_u16 port)) in
      let (sc, e, holds) = write-holds 1 told v2 c fresh in
      let stream = sealed_stream lib main fb am af salt hs hm hf lm lf other source ch.rest in
      let (t, q, left) =
        server_handshake-Follows ⦃io = server_conn lib send⦄ (stream_source send stream) net
          (net.join_host_port host (itoa port), if v2 then 5 else 1)
          (quiet (header host port v2 ++ [])) (quiet [])
          (new_conn_with_fallback (accept sc.conn) main fb)
          (subst (λ (b : List ℕ). stream.Holds b (new_conn_with_fallback (accept sc.conn) main fb))
            (sym (append-nil (header host port v2))) holds)
          (server_handshake-header net host [] port v2 (quiet []) short small) in
      (sc, t, e, q)
