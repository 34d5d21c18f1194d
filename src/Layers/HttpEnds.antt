-- ===== src/Layers/HttpEnds.antt =====
-- The two ends of the HTTP disguise as connections for the layer above.
use open_snell.Base.{
  ℕ, ◌<◌, ◌≡◌, ◌⊎◌, refl, sym, ap, ◌∙◌, inl, inr, true, false, Bool, List, [], ◌∷◌, ◌++◌,
  append-nil, append_assoc, none, arith, length, if◌then◌else◌,
}
use open_snell.Io.{eof, Conn, Result, NetConn}
use open_snell.Io.Laws.{send_well}
use native.Mathlib.Nat.{le_refl}
use open_snell.Io.Streams.{ByteSink, Channel}
use open_snell.Http.Types.{HttpLib, Request, ReadsBack}
use open_snell.Http.Client.{
  HttpClient, Random, new_http_client, client_request, http_client_read, http_client_write,
}
use open_snell.Http.Server.{HttpServer, Stamp, new_http_server, http_server_read, http_server_write}
use open_snell.Http.Taps.{to_come, InBuf}
use open_snell.Http.Meets.{
  Reads, http_server_read-Reads, http_server_read-request, http_server_read-empty,
}
use open_snell.Layers.Loop.{Readable, looped}
use open_snell.Layers.Whole.{Stream, Next, stream_source}

abbrev pub one_if : Bool → ℕ
one_if b = if b then 1 else 0

-- The first `Read` returns nothing behind a message without a body.
abbrev pub http_client_reads : HttpLib → Readable HttpClient
http_client_reads lib = record {
  read = http_client_read lib;
  idle_reads = λ s. one_if s.first_response;
}

abbrev pub http_server_reads : HttpLib → Readable HttpServer
http_server_reads lib = record {
  read = http_server_read lib;
  idle_reads = λ s. one_if s.first_request;
}

-- Both ends, with what their first messages draw.
abbrev pub http_client_conn : HttpLib → Random → NetConn HttpClient
http_client_conn lib r = looped (http_client_reads lib) (http_client_write lib r)

abbrev pub http_server_conn : HttpLib → Stamp → NetConn HttpServer
http_server_conn lib p = looped (http_server_reads lib) (http_server_write p)

abbrev pub quiet : Conn
quiet = record { input = []; closing = eof; cuts = []; faults = []; output = [] }

module _ (lib : HttpLib) (r : Random) (host port : List ℕ) where
  -- The request around the first bytes.
  abbrev pub asked : List ℕ → Request
  asked b = client_request r b (new_http_client quiet host port)

  -- What a client has sent of the bytes `bs`: nothing yet, or a request and bytes behind it.
  abbrev pub Sent : List ℕ → HttpClient → Type 0
  Sent bs c =
      ((bs ≡ []) × (c.first_request ≡ true) × (c.tap.conn.output ≡ []))
      ⊎ ((b more : List ℕ) × (b ++ more ≡ bs)
          × (c.first_request ≡ false)
          × (c.tap.conn.output ≡ lib.write_request (asked b) ++ more))

  pub record Wrote (bs : List ℕ) (c : HttpClient) : Type 0 where
    pub clean : c.tap.conn.faults ≡ []
    pub same_host : c.host ≡ host
    pub same_port : c.port ≡ port
    pub sent : Sent bs c

  pub http_client_write-Wrote :
      (bs b : List ℕ) (c : HttpClient)
      → Wrote bs c
      → (c' : HttpClient) × (http_client_write lib r b c ≡ ((length b, none), c'))
        × Wrote (bs ++ b) c'
  unfolding http_client_write client_request new_http_client
  http_client_write-Wrote bs b c w = elim (w.sent) [
    | inl (e, first, fresh) ↦ (
      record c {
        tap = record c.tap {
          conn = record c.tap.conn { output = c.tap.conn.output ++ lib.write_request (asked b) };
        };
        first_request = false;
      },
      rw
          (
            first,
            w.same_host,
            w.same_port,
            send_well (lib.write_request (asked b)) c.tap.conn w.clean,
          )
          refl,
      record {
        clean = w.clean;
        same_host = w.same_host;
        same_port = w.same_port;
        sent = inr (b, [], rw (e, append-nil) refl, refl, rw (fresh, append-nil) refl);
      },
    )
    | inr (b0, more, whole, later, so_far) ↦ (
      record c {
        tap = record c.tap { conn = record c.tap.conn { output = c.tap.conn.output ++ b } };
      },
      rw (later, send_well b c.tap.conn w.clean) refl,
      record {
        clean = w.clean;
        same_host = w.same_host;
        same_port = w.same_port;
        sent = inr (
          b0,
          more ++ b,
          rw (← whole) (sym (append_assoc b0 more b)),
          later,
          ap (λ (o : List ℕ). o ++ b) so_far ∙ append_assoc (lib.write_request (asked b0)) more b,
        );
      },
    )
  ]

  -- A client whose connection takes every write, and what it has sent.
  abbrev pub http_sink : ByteSink (http_client_conn lib r)
  http_sink = record { Wrote = Wrote; send-Wrote = http_client_write-Wrote }

  -- A new server in front of a request and bytes, and one behind the first request.
  abbrev pub Asked : List ℕ → HttpServer → Type 0
  Asked bs s =
      (c : Conn) × (b more : List ℕ) × (b ++ more ≡ bs)
      × (s ≡ new_http_server (record c { input = lib.write_request (asked b) ++ more }))

  abbrev pub Upgraded : List ℕ → HttpServer → Type 0
  Upgraded bs s = (s.first_request ≡ false) × InBuf s.tap.buf s.tap.offset × (to_come s.tap ≡ bs)

  abbrev pub ServerHolds : List ℕ → HttpServer → Type 0
  ServerHolds bs s = (bs ≡ []) ⊎ (Upgraded bs s ⊎ Asked bs s)

  abbrev NextRead : ℕ → List ℕ → HttpServer → Result (List ℕ) × HttpServer → Type 0
  NextRead n bs s x = Next ServerHolds (λ s. one_if s.first_request) n bs s x

  Reads-Next :
      (n : ℕ) (bs : List ℕ) (s : HttpServer) (x : Result (List ℕ) × HttpServer)
      → Reads n bs s x
      → NextRead n bs s x
  Reads-Next n bs s x (out, t, e, whole, lo, hi, inside) = (
    out,
    to_come t,
    record s { tap = t; first_request = false },
    e,
    whole,
    hi,
    omega (arith, lo),
    inr (inl (refl, inside, refl)),
  )

  module _ (law : (b : List ℕ) → ReadsBack lib (asked b)) where
    Asked-Next :
        (n : ℕ) (b more : List ℕ) (c : Conn)
        → 0 < n
        → 0 < length (b ++ more)
        → let s = new_http_server (record c { input = lib.write_request (asked b) ++ more }) in
          NextRead n (b ++ more) s (http_server_read lib n s)
    unfolding new_http_server
    Asked-Next n [] more c hn hb = (
      [],
      more,
      record (new_http_server c) {
        tap = record { buf = none; offset = 0; conn = record c { input = more } };
        first_request = false;
      },
      http_server_read-empty lib r n more (new_http_client quiet host port) c (law []),
      refl,
      omega arith,
      omega arith,
      inr (inl (refl, tt, refl)),
    )
    Asked-Next n (x ∷ b) more c hn hb =
        let s = new_http_server (record c { input = lib.write_request (asked (x ∷ b)) ++ more }) in
        Reads-Next n ((x ∷ b) ++ more) s (http_server_read lib n s) (
          http_server_read-request lib r n (x ∷ b) more (new_http_client quiet host port) c
            (law (x ∷ b)) hn (omega arith))

    pub http_server_read-Next :
        (n : ℕ) (bs : List ℕ) (s : HttpServer)
        → 0 < n
        → 0 < length bs
        → ServerHolds bs s
        → NextRead n bs s (http_server_read lib n s)
    http_server_read-Next n bs s hn hb (inl e) =
        absurd (omega (arith, ap (λ (l : List ℕ). length l) e))
    http_server_read-Next n bs s hn hb (inr (inl (behind, inside, whole))) = rw (← whole) (
        Reads-Next n (to_come s.tap) s (http_server_read lib n s)
          (http_server_read-Reads lib n s behind inside hn (rw whole hb)))
    http_server_read-Next n bs s hn hb (inr (inr (c, b, more, whole, e))) =
        rw (e, ← whole) (Asked-Next n b more c hn (rw whole hb))

    abbrev pub http_stream : Stream (http_server_reads lib)
    http_stream = record {
      Holds = ServerHolds;
      stalls = λ s. one_if s.first_request;
      stalls_bound = λ s. le_refl (one_if s.first_request);
      read-Holds = http_server_read-Next;
    }

    pub http_arrive :
        (s : Conn) (b : List ℕ) (c : HttpClient)
        → Wrote b c
        → ServerHolds (b ++ []) (new_http_server (record s { input = c.tap.conn.output }))
    http_arrive s b c w = elim (w.sent) [
      | inl (e, first, fresh) ↦ inl (append-nil b ∙ e)
      | inr (b0, more, whole, later, so_far) ↦ inr (
          inr (
            s,
            b0,
            more,
            whole ∙ sym (append-nil b),
            ap (λ (o : List ℕ). new_http_server (record s { input = o })) so_far,
          ))
    ]

    -- A client and a new server that reads what the client put on the wire.
    abbrev pub http_channel :
        (p : Stamp) → Conn → Channel (http_client_conn lib r) (http_server_conn lib p)
    http_channel p s = record {
      sink = http_sink;
      source = stream_source (http_server_write p) http_stream;
      rest = [];
      accept = λ c. new_http_server (record s { input = c.tap.conn.output });
      arrive = http_arrive s;
    }
