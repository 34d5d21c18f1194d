-- ===== src/Layers/TlsEnds.antt =====
-- The two ends of the TLS disguise as connections for the layer above.
use open_snell.Base.{
  ℕ, ◌≤◌, ◌<◌, ◌≡◌, ◌⊎◌, refl, sym, ap, ◌∙◌, inl, inr, List, [], ◌++◌, append-nil, none, arith,
  length, All, joined,
}
use open_snell.Io.{Conn, Result, NetConn}
use open_snell.Io.Streams.{ByteSink, Channel}
use open_snell.Tls.{Draw, IsDraw, TlsClient, TlsServer}
use open_snell.Tls.Hello.{make_client_hello_msg}
use open_snell.Tls.Client.{client_read, client_write}
use open_snell.Tls.Writing.{still_first}
use open_snell.Tls.Server.{server_read, server_write, new_tls_server}
use open_snell.Tls.Records.{Piece, records}
use open_snell.Tls.ServerFlow.{Flow, Delivers, server_read-Flow, server_read-hello}
use open_snell.Layers.TlsWrites.{Disguised, write_loop-Adds}
use open_snell.Layers.Loop.{Readable, looped}
use open_snell.Layers.Whole.{Stream, Next, stream_source}

abbrev pub tls_client_reads : Readable TlsClient
tls_client_reads = record { read = client_read; idle_reads = λ s. length s.conn.input }

abbrev pub tls_server_reads : Readable TlsServer
tls_server_reads = record { read = server_read; idle_reads = λ s. length s.conn.input }

-- Both ends, with what their hellos draw.
abbrev pub tls_client_conn : Draw → NetConn TlsClient
tls_client_conn d = looped tls_client_reads (client_write d)

abbrev pub tls_server_conn : Draw → NetConn TlsServer
tls_server_conn d = looped tls_server_reads (server_write d)

-- What a client has sent of the bytes `bs`.
abbrev pub Sent : Draw → List ℕ → TlsClient → Type 0
Sent d bs c = Disguised (λ p. make_client_hello_msg d p c.server) bs c.first_request c.conn.output

pub record Wrote (d : Draw) (bs : List ℕ) (c : TlsClient) : Type 0 where
  pub clean : c.conn.faults ≡ []
  pub short_name : length c.server ≤ 255
  pub sent : Sent d bs c

pub client_write-Wrote :
    (d : Draw) (bs b : List ℕ) (c : TlsClient)
    → Wrote d bs c
    → (c' : TlsClient) × (client_write d b c ≡ ((length b, none), c')) × Wrote d (bs ++ b) c'
unfolding client_write
client_write-Wrote d bs b c w =
    let (out, e, sent) =
      write_loop-Adds (λ p. make_client_hello_msg d p c.server) bs b c.first_request c.conn w.clean
        w.sent in
    (
      record c {
        conn = record c.conn { output = c.conn.output ++ out };
        first_request = still_first c.first_request b;
      },
      rw e refl,
      record { clean = w.clean; short_name = w.short_name; sent = sent },
    )

-- A client whose connection takes every write, and what it has sent.
abbrev pub tls_sink : (d : Draw) → ByteSink (tls_client_conn d)
tls_sink d = record { Wrote = Wrote d; send-Wrote = client_write-Wrote d }

-- A new server in front of a hello and records.
abbrev pub Greeted : Draw → List ℕ → TlsServer → Type 0
Greeted d b s =
    (c : Conn) × (name p : List ℕ) × (ps : List (List ℕ)) × (s
      ≡ new_tls_server (record c { input = make_client_hello_msg d p name ++ records ps }))
    × Piece p
    × All Piece ps
    × (length name ≤ 255)
    × (p ++ joined ps ≡ b)

abbrev pub ServerHolds : Draw → List ℕ → TlsServer → Type 0
ServerHolds d b s = (b ≡ []) ⊎ (Flow s b ⊎ Greeted d b s)

Delivers-Next :
    (d : Draw) (n : ℕ) (b : List ℕ) (s : TlsServer) (x : Result (List ℕ) × TlsServer)
    → Delivers n b x
    → Next (ServerHolds d) (λ s. 0) n b s x
Delivers-Next d n b s (p, s') h = (
  h.out,
  h.rest,
  s',
  λ i. (h.returned i, s'),
  sym h.next,
  h.fits,
  omega (arith, h.some),
  inr (inl h.flow),
)

pub server_read-Next :
    (d : Draw) (law : IsDraw d) (n : ℕ) (b : List ℕ) (s : TlsServer)
    → 0 < n
    → 0 < length b
    → ServerHolds d b s
    → Next (ServerHolds d) (λ s. 0) n b s (server_read n s)
server_read-Next d law n b s hn hb (inl e) = absurd (omega (arith, ap (λ (l : List ℕ). length l) e))
server_read-Next d law n b s hn hb (inr (inl flow)) =
    Delivers-Next d n b s (server_read n s) (server_read-Flow n s b hn hb flow)
server_read-Next d law n b s hn hb (inr (inr (c, name, p, ps, e, piece, pieces, short, whole))) =
    rw (e, ← whole)
      (Delivers-Next d n (p ++ joined ps)
        (new_tls_server (record c { input = make_client_hello_msg d p name ++ records ps })) _
        (server_read-hello n d p name ps c hn law piece short pieces))

abbrev pub tls_stream : (d : Draw) → IsDraw d → Stream tls_server_reads
tls_stream d law = record {
  Holds = ServerHolds d;
  stalls = λ s. 0;
  stalls_bound = λ s. omega arith;
  read-Holds = server_read-Next d law;
}

pub tls_arrive :
    (d : Draw) (s : Conn) (b : List ℕ) (c : TlsClient)
    → Wrote d b c
    → ServerHolds d (b ++ []) (new_tls_server (record s { input = c.conn.output }))
tls_arrive d s b c w = elim (w.sent) [
  | inl (e, first, fresh) ↦ inl (append-nil b ∙ e)
  | inr (p, ps, piece, pieces, whole, later, so_far) ↦ inr (
      inr (
        s,
        c.server,
        p,
        ps,
        ap (λ (o : List ℕ). new_tls_server (record s { input = o })) so_far,
        piece,
        pieces,
        w.short_name,
        whole ∙ sym (append-nil b),
      ))
]

-- A client and a new server that reads what the client put on the wire.
abbrev pub tls_channel :
    (d e : Draw) → IsDraw d → Conn → Channel (tls_client_conn d) (tls_server_conn e)
tls_channel d e law s = record {
  sink = tls_sink d;
  source = stream_source (server_write e) (tls_stream d law);
  rest = [];
  accept = λ c. new_tls_server (record s { input = c.conn.output });
  arrive = tls_arrive d s;
}
