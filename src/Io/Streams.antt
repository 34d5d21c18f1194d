-- ===== src/Io/Streams.antt =====
-- What a connection delivers and what it takes, as an interface for the layers above it.
use open_snell.Base.{ℕ, ◌≡◌, refl, ap, ◌∙◌, List, [], ◌++◌, append_assoc, none, length}
use open_snell.Io.Laws.{read_full-append, send_well}
use open_snell.Io.Types.{Conn, ok}
use open_snell.Io.{NetConn, plain}

-- The bytes that are still to be read, in front of which `io.ReadFull` never fails.
pub record ByteSource {S : Type 0} (io : NetConn S) : Type 1 where
  pub Holds : List ℕ → S → Type 0
  pub read_full-Holds :
      (xs ys : List ℕ) (c : S)
      → Holds (xs ++ ys) c
      → (c' : S) × (io.read_full (length xs) c ≡ (ok xs, c')) × Holds ys c'

-- The bytes that were written so far, to which `Write` adds all that it is given.
pub record ByteSink {S : Type 0} (io : NetConn S) : Type 1 where
  pub Wrote : List ℕ → S → Type 0
  pub send-Wrote :
      (xs b : List ℕ) (c : S)
      → Wrote xs c
      → (c' : S) × (io.send b c ≡ ((length b, none), c')) × Wrote (xs ++ b) c'

abbrev pub PlainHolds : Conn → List ℕ → Conn → Type 0
PlainHolds c0 b c = c ≡ record c0 { input = b }

pub plain_read :
    (c0 : Conn) (xs ys : List ℕ) (c : Conn)
    → PlainHolds c0 (xs ++ ys) c
    → (c' : Conn) × (plain.read_full (length xs) c ≡ (ok xs, c')) × PlainHolds c0 ys c'
plain_read c0 xs ys c h =
    (record c0 { input = ys }, rw h (read_full-append (length xs) xs ys c0 refl), refl)

-- A connection with its input.
abbrev pub plain_source : Conn → ByteSource plain
plain_source c0 = record { Holds = PlainHolds c0; read_full-Holds = plain_read c0 }

abbrev pub PlainWrote : Conn → List ℕ → Conn → Type 0
PlainWrote c0 b c = c ≡ record c0 { output = c0.output ++ b }

pub plain_write :
    (c0 : Conn) (clean : c0.faults ≡ []) (xs b : List ℕ) (c : Conn)
    → PlainWrote c0 xs c
    → (c' : Conn) × (plain.send b c ≡ ((length b, none), c')) × PlainWrote c0 (xs ++ b) c'
plain_write c0 clean xs b c h = (
  record c0 { output = c0.output ++ (xs ++ b) },
  rw (h, ← append_assoc c0.output xs b)
      (send_well b (record c0 { output = c0.output ++ xs }) clean),
  refl,
)

-- A connection that takes every write, and its output.
abbrev pub plain_sink : (c0 : Conn) → c0.faults ≡ [] → ByteSink plain
plain_sink c0 clean = record { Wrote = PlainWrote c0; send-Wrote = plain_write c0 clean }

-- Two ends of a connection: what one end wrote is what the other end holds, in front of `rest`.
pub record Channel {C S : Type 0} (out : NetConn C) (inp : NetConn S) : Type 1 where
  pub sink : ByteSink out
  pub source : ByteSource inp
  pub rest : List ℕ
  pub accept : C → S
  pub arrive : (b : List ℕ) (c : C) → sink.Wrote b c → source.Holds (b ++ rest) (accept c)

pub plain_arrive :
    (c s : Conn) (fresh : c.output ≡ []) (rest b : List ℕ) (c' : Conn)
    → PlainWrote c b c'
    → PlainHolds s (b ++ rest) (record s { input = c'.output ++ rest })
plain_arrive c s fresh rest b c' h =
    ap (λ (d : Conn). record s { input = d.output ++ rest }) h
    ∙ ap (λ (o : List ℕ). record s { input = (o ++ b) ++ rest }) fresh

abbrev pub plain_channel :
    (c s : Conn) → c.faults ≡ [] → c.output ≡ [] → List ℕ → Channel plain plain
plain_channel c s clean fresh rest = record {
  sink = plain_sink c clean;
  source = plain_source s;
  rest = rest;
  accept = λ d. record s { input = d.output ++ rest };
  arrive = plain_arrive c s fresh rest;
}
