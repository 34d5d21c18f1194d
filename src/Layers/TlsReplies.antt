-- ===== src/Layers/TlsReplies.antt =====
-- The TLS disguise in the other direction: the server writes and the client reads.
use open_snell.Base.{
  ℕ, ◌<◌, ◌≡◌, ◌⊎◌, refl, sym, ap, ◌∙◌, inl, inr, true, List, [], ◌++◌, append-nil, none, arith,
  length, All, joined,
}
use open_snell.Io.{Result}
use open_snell.Io.Streams.{ByteSink, Channel}
use open_snell.Tls.{Draw, IsDraw, TlsClient, TlsServer}
use open_snell.Tls.Hello.{make_server_hello}
use open_snell.Tls.Client.{client_read, client_write}
use open_snell.Tls.Writing.{still_first}
use open_snell.Tls.Server.{server_write}
use open_snell.Tls.Records.{Piece, records}
use open_snell.Tls.ClientFlow.{Flow, Delivers, client_read-Flow, client_read-hello}
use open_snell.Layers.Whole.{Stream, Next, stream_source}
use open_snell.Layers.TlsWrites.{Disguised, write_loop-Adds}
use open_snell.Layers.TlsEnds.{tls_client_reads, tls_client_conn, tls_server_conn}

-- A server whose connection takes every write, and what it has sent of the bytes `bs`.
pub record Wrote (d : Draw) (bs : List ℕ) (s : TlsServer) : Type 0 where
  pub clean : s.conn.faults ≡ []
  pub sent : Disguised (make_server_hello d) bs s.first_response s.conn.output

pub server_write-Wrote :
    (d : Draw) (bs b : List ℕ) (s : TlsServer)
    → Wrote d bs s
    → (s' : TlsServer) × (server_write d b s ≡ ((length b, none), s')) × Wrote d (bs ++ b) s'
unfolding server_write
server_write-Wrote d bs b s w =
    let (out, e, sent) =
      write_loop-Adds (make_server_hello d) bs b s.first_response s.conn w.clean w.sent in
    (
      record s {
        conn = record s.conn { output = s.conn.output ++ out };
        first_response = still_first s.first_response b;
      },
      rw e refl,
      record { clean = w.clean; sent = sent },
    )

abbrev pub tls_reply_sink : (d : Draw) → ByteSink (tls_server_conn d)
tls_reply_sink d = record { Wrote = Wrote d; send-Wrote = server_write-Wrote d }

-- A client that has read nothing yet, in front of a hello and records.
abbrev pub Answered : Draw → List ℕ → TlsClient → Type 0
Answered d b c =
    (p : List ℕ) × (ps : List (List ℕ)) × (c.first_response ≡ true)
    × (c.remain ≡ 0)
    × (c.conn.input ≡ make_server_hello d p ++ records ps)
    × Piece p
    × All Piece ps
    × (p ++ joined ps ≡ b)

abbrev pub ClientHolds : Draw → List ℕ → TlsClient → Type 0
ClientHolds d b c = (b ≡ []) ⊎ (Flow c b ⊎ Answered d b c)

Delivers-Next :
    (d : Draw) (n : ℕ) (b : List ℕ) (c : TlsClient) (x : Result (List ℕ) × TlsClient)
    → Delivers n b x
    → Next (ClientHolds d) (λ c. 0) n b c x
Delivers-Next d n b c (p, c') h = (
  h.out,
  h.rest,
  c',
  λ i. (h.returned i, c'),
  sym h.next,
  h.fits,
  omega (arith, h.some),
  inr (inl h.flow),
)

pub client_read-Next :
    (d : Draw) (law : IsDraw d) (n : ℕ) (b : List ℕ) (c : TlsClient)
    → 0 < n
    → 0 < length b
    → ClientHolds d b c
    → Next (ClientHolds d) (λ c. 0) n b c (client_read n c)
client_read-Next d law n b c hn hb (inl e) = absurd (omega (arith, ap (λ (l : List ℕ). length l) e))
client_read-Next d law n b c hn hb (inr (inl flow)) =
    Delivers-Next d n b c (client_read n c) (client_read-Flow n c b hn hb flow)
client_read-Next d law n b c hn hb (inr (inr (p, ps, new, fresh, input, piece, pieces, whole))) =
    rw (← whole) (
      Delivers-Next d n (p ++ joined ps) c _
        (client_read-hello n d p ps c c.conn.input hn law piece pieces new fresh input))

abbrev pub tls_reply_stream : (d : Draw) → IsDraw d → Stream tls_client_reads
tls_reply_stream d law = record {
  Holds = ClientHolds d;
  stalls = λ c. 0;
  stalls_bound = λ c. omega arith;
  read-Holds = client_read-Next d law;
}

-- The client with what a server put on the wire.
abbrev pub hears : TlsClient → TlsServer → TlsClient
hears c s = record c { conn = record c.conn { input = s.conn.output } }

pub tls_reply_arrive :
    (d : Draw) (c : TlsClient)
    → c.first_response ≡ true
    → c.remain ≡ 0
    → (b : List ℕ) (s : TlsServer) → Wrote d b s
    → ClientHolds d (b ++ []) (hears c s)
tls_reply_arrive d c new fresh b s w = elim (w.sent) [
  | inl (e, first, silent) ↦ inl (append-nil b ∙ e)
  | inr (p, ps, piece, pieces, whole, later, so_far) ↦
      inr (inr (p, ps, new, fresh, so_far, piece, pieces, whole ∙ sym (append-nil b)))
]

-- A server, and a client that has read nothing yet and reads what the server put on the wire.
abbrev pub tls_reply_channel :
    (d e : Draw)
    → IsDraw d
    → (c : TlsClient) → c.first_response ≡ true
    → c.remain ≡ 0
    → Channel (tls_server_conn d) (tls_client_conn e)
tls_reply_channel d e law c new fresh = record {
  sink = tls_reply_sink d;
  source = stream_source (client_write e) (tls_reply_stream d law);
  rest = [];
  accept = hears c;
  arrive = tls_reply_arrive d c new fresh;
}
