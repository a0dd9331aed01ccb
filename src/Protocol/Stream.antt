-- ===== src/Protocol/Stream.antt =====
-- The byte streams that the codec reads and writes: tokio's `read_exact` and `write_all`.
use bitsafe.Prelude.{
  ℕ, zero, suc, ◌+◌, ◌≤◌, List, ◌∷◌, ◌-◌, ◌≡◌, Option, none, some, ◌++◌, [], arith, leb, length,
  take, drop, if◌then◌else◌, take-length-append, drop-length-append, length-append,
}
use bitsafe.Prelude.Bytes.{Bytes}
use bitsafe.Prelude.Results.{Result, ok, err}

-- `std::io::ErrorKind`, as far as the code tells kinds apart.
pub data IoError : Type 0 where
  unexpected_eof other_io : IoError

-- What the reader meets behind the bytes that the peer has sent.
pub data Ending : Type 0 where
  closed broken : Ending

pub record Reader : Type 0 where
  pub pending : Bytes
  pub ending : Ending

abbrev pub ending_error : Ending → IoError
ending_error closed = unexpected_eof
ending_error broken = other_io

unfoldable pub read_exact : ℕ → Reader → Result IoError Bytes × Reader
read_exact n r =
    if leb n (length r.pending)
    then (ok (take n r.pending), record r { pending = drop n r.pending })
    else (err (ending_error r.ending), record r { pending = [] })

-- `room` is the number of bytes that the peer still takes, `none` for any number.
pub record Writer : Type 0 where
  pub written : Bytes
  pub room : Option ℕ

-- A write that fails has written what there was room for.
abbrev write_into : Bytes → Option ℕ → Bytes → Result IoError (Unit {0}) × Writer
write_into done none data' = (ok tt, record { written = done ++ data'; room = none })
write_into done (some n) data' =
    if leb (length data') n
    then (ok tt, record { written = done ++ data'; room = some (n - length data') })
    else (err other_io, record { written = done ++ take n data'; room = some 0 })

unfoldable pub write_all : Writer → Bytes → Result IoError (Unit {0}) × Writer
write_all w data' = write_into w.written w.room data'

-- Bytes that stand in front of the stream are read back whole, and the rest stays.
pub read_exact-append :
    (xs rest : Bytes) (e : Ending)
    → read_exact (length xs) (record { pending = xs ++ rest; ending = e })
      ≡ (ok xs, record { pending = rest; ending = e })
unfolding read_exact
read_exact-append xs rest e =
    ground (arith, length-append xs rest, take-length-append xs rest, drop-length-append xs rest)

length-drop {ℓ} : {A : Type ℓ} (n : ℕ) (xs : List A) → length (drop n xs) ≡ length xs - n
length-drop zero xs = omega arith
length-drop (suc n) [] = omega arith
length-drop (suc n) (x ∷ xs) = omega (arith, length-drop n xs)

-- The bytes that are still to be read.
abbrev pub left : Reader → ℕ
left r = length r.pending

pub read_exact-le : (n : ℕ) (r : Reader) → left (read_exact n r).1 ≤ left r
unfolding read_exact
read_exact-le n r = ground (arith, length-drop n r.pending)

pub read_exact-ok :
    (n : ℕ) (r : Reader) (bytes : Bytes) (r' : Reader)
    → read_exact n r ≡ (ok bytes, r')
    → left r' + n ≤ left r
unfolding read_exact
read_exact-ok n r bytes r' h = ground (arith, length-drop n r.pending)
