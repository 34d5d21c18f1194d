-- ===== src/Io/Laws.antt =====
-- `ReadFull` by the length of what is left, and on input that begins with known bytes.
use open_snell.Base.{
  inl, inr, ◌⊎◌, ℕ, Option, some, none, take-append-drop, length-take, false, ◌≤◌, ◌<◌, ◌≡◌, ◌∙◌,
  List, [], ◌∷◌, ◌++◌, arith, length, take, drop, length-append, take-append, drop-append, le→leb,
  leb-false, if◌then◌else◌, ◌==◌,
}
use mathlib.Core.Path.{refl}
use open_snell.Io.{
  send_by, finish, next_size, read, Conn, Error, ok, err, read_full, cut_short, send, write,
  write_to_conn, plain,
}

-- The error of a `ReadFull` that finds only `xs`.
pub short_error : Conn → List ℕ → Error
unfolding cut_short
short_error c xs = if length xs == 0 then c.closing else cut_short c.closing

pub read_full_enough :
    (n : ℕ) (xs : List ℕ) (c : Conn)
    → n ≤ length xs
    → read_full n (record c { input = xs }) ≡ (ok (take n xs), record c { input = drop n xs })
unfolding read_full
read_full_enough n xs c h = rw (le→leb n (length xs) h)

pub read_full_short :
    (n : ℕ) (xs : List ℕ) (c : Conn)
    → length xs < n
    → read_full n (record c { input = xs }) ≡ (err (short_error c xs), record c { input = [] })
unfolding read_full short_error
read_full_short n xs c h = rw (leb-false n (length xs) h)

pub read_full-append :
    (n : ℕ) (xs ys : List ℕ) (c : Conn)
    → length xs ≡ n
    → read_full n (record c { input = xs ++ ys }) ≡ (ok xs, record c { input = ys })
read_full-append n xs ys c h =
    read_full_enough n (xs ++ ys) c (omega (arith, length-append xs ys))
    ∙ rw (take-append n xs ys h, drop-append n xs ys h)

-- A write that no fault awaits.
pub write_well :
    (b : List ℕ) (c : Conn)
    → c.faults ≡ []
    → write b c ≡ (ok tt, record c { output = c.output ++ b })
unfolding write
write_well b c h = rw (h, send) refl

pub write_to_conn_well :
    (b : List ℕ) (c : Conn)
    → c.faults ≡ []
    → write_to_conn b c ≡ (ok tt, record c { output = c.output ++ b })
unfolding write_to_conn send
write_to_conn_well b c h = rw (h, send) refl

next_size_bounds : (ks : List ℕ) (m : ℕ) → 0 < m → (0 < next_size ks m) × (next_size ks m ≤ m)
unfolding next_size
next_size_bounds [] m h = omega arith
next_size_bounds (k ∷ ks) m h = omega arith

pub read_end : (m : ℕ) (c : Conn) → 0 < m → c.input ≡ [] → read m c ≡ (err c.closing, c)
unfolding read
read_end m c h e = let ne : (m == 0) ≡ false = ground arith in rw (ne, e)

-- A `Read` of a stream that is not at its end cuts it behind one byte at least.
pub read_cut :
    (m : ℕ) (c : Conn)
    → 0 < m
    → 0 < length c.input
    → (k : ℕ) × (1 ≤ k)
      × (k ≤ m)
      × (read m c
          ≡ (ok (take k c.input), record c { input = drop k c.input; cuts = drop 1 c.cuts }))
unfolding read
read_cut m c h more =
    let ne : (m == 0) ≡ false = ground arith in
    let ne' : (length c.input == 0) ≡ false = ground arith in
    let (lo, hi) = next_size_bounds c.cuts m h in
    (next_size c.cuts m, omega (arith, lo), hi, rw (ne, ne'))

-- It takes a part of the stream, one byte at least.
pub read_some :
    (m : ℕ) (c : Conn)
    → 0 < m
    → 0 < length c.input
    → (p : List ℕ) × (c' : Conn) × (read m c ≡ (ok p, c'))
      × (p ++ c'.input ≡ c.input)
      × (0 < length p)
      × (length p ≤ m)
      × (c'.closing ≡ c.closing)
read_some m c h more =
    let (k, lo, hi, e) = read_cut m c h more in
    (
      take k c.input,
      record c { input = drop k c.input; cuts = drop 1 c.cuts },
      e,
      take-append-drop k c.input,
      omega (arith, length-take k c.input),
      omega (arith, length-take k c.input),
      refl,
    )

pub send_well :
    (b : List ℕ) (c : Conn)
    → c.faults ≡ []
    → send b c ≡ ((length b, none), record c { output = c.output ++ b })
unfolding send
send_well b c h = rw h refl

pub short_error-nil : (c : Conn) → short_error c [] ≡ c.closing
unfolding short_error
short_error-nil c = refl

-- A write leaves the input alone, fault or not.
send_by-input :
    (fs : List (Option (ℕ × Error))) (b : List ℕ) (c : Conn) → (send_by fs b c).1.input ≡ c.input
unfolding send_by
send_by-input [] b c = refl
send_by-input (none ∷ fs) b c = refl
send_by-input (some (k, e) ∷ fs) b c = refl

pub send-input : (b : List ℕ) (c : Conn) → (send b c).1.input ≡ c.input
unfolding send
send-input b c = send_by-input c.faults b c

finish-input : (x : (ℕ × Option Error) × Conn) → (finish x).1.input ≡ x.1.input
unfolding finish
finish-input ((n, none), c) = refl
finish-input ((n, some e), c) = refl

pub write-input : (b : List ℕ) (c : Conn) → (write b c).1.input ≡ c.input
unfolding write
write-input b c = finish-input (send b c) ∙ send-input b c

-- No call changes the error that stands behind the stream.
send_by-closing :
    (fs : List (Option (ℕ × Error))) (b : List ℕ) (c : Conn)
    → (send_by fs b c).1.closing ≡ c.closing
unfolding send_by
send_by-closing [] b c = refl
send_by-closing (none ∷ fs) b c = refl
send_by-closing (some (k, e) ∷ fs) b c = refl

pub send-closing : (b : List ℕ) (c : Conn) → (send b c).1.closing ≡ c.closing
unfolding send
send-closing b c = send_by-closing c.faults b c

finish-closing : (x : (ℕ × Option Error) × Conn) → (finish x).1.closing ≡ x.1.closing
unfolding finish
finish-closing ((n, none), c) = refl
finish-closing ((n, some e), c) = refl

pub write-closing : (b : List ℕ) (c : Conn) → (write b c).1.closing ≡ c.closing
unfolding write
write-closing b c = finish-closing (send b c) ∙ send-closing b c

pub write_to_conn-closing : (b : List ℕ) (c : Conn) → (write_to_conn b c).1.closing ≡ c.closing
unfolding write_to_conn
write_to_conn-closing b c = finish-closing (send b c) ∙ send-closing b c

finish_cases :
    (x : (ℕ × Option Error) × Conn)
    → ((e : Error) × (c' : Conn) × (finish x ≡ (err e, c')))
      ⊎ ((c' : Conn) × (finish x ≡ (ok tt, c')))
unfolding finish
finish_cases ((n, none), c) = inr (c, refl)
finish_cases ((n, some e), c) = inl (e, c, refl)

-- A write does not panic.
pub write_cases :
    (b : List ℕ) (c : Conn)
    → ((e : Error) × (c' : Conn) × (write b c ≡ (err e, c')))
      ⊎ ((c' : Conn) × (write b c ≡ (ok tt, c')))
unfolding write
write_cases b c = finish_cases (send b c)
