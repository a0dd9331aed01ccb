-- ===== src/Protocol/Codec/Progress.antt =====
-- codec.rs: what `read_message` takes from the stream.
use bitsafe.Prelude.{[], ◌+◌, ◌≤◌, ◌≡◌, refl, inl, inr, ℕ, arith, ltb, Bool-cases}
use bitsafe.Prelude.Bytes.{Bytes}
use bitsafe.Prelude.Results.{Result, ok, err}
use bitsafe.Protocol.Stream.{
  closed, Reader, IoError, unexpected_eof, other_io, read_exact, left, read_exact-le, read_exact-ok,
}
use bitsafe.Protocol.Codec.{
  Codec, connection_closed, max_message_size, decode_payload, read_payload, read_behind_header,
  read_message,
}

module _ {S T : Type 0} (codec : Codec S T) where
  decode_payload-left :
      (p : Result IoError Bytes × Reader) (s : S) → (decode_payload codec p s).2 ≡ p.1
  unfolding decode_payload
  decode_payload-left (ok payload, r) s = refl
  decode_payload-left (err e, r) s = refl

  read_payload-le : (n : ℕ) (r : Reader) (s : S) → left (read_payload codec n r s).2 ≤ left r
  unfolding read_payload
  read_payload-le n r s = elim (Bool-cases (ltb max_message_size n)) [
    | inl long ↦ rw long (omega arith)
    | inr fits ↦ rw fits (rw (decode_payload-left (read_exact n r) s) (read_exact-le n r))
  ]

  read_behind_header-le :
      (p : Result IoError Bytes × Reader) (s : S) → left (read_behind_header codec p s).2 ≤ left p.1
  unfolding read_behind_header
  read_behind_header-le (ok header, r) s = read_payload-le _ r s
  read_behind_header-le (err unexpected_eof, r) s = omega arith
  read_behind_header-le (err other_io, r) s = omega arith

  -- A message that was read took four bytes at least.
  read_behind_header-ok :
      (r : Reader) (p : Result IoError Bytes × Reader) (s : S) (msg : T)
      → read_exact 4 r ≡ p
      → (read_behind_header codec p s).0 ≡ ok msg
      → left (read_behind_header codec p s).2 + 4 ≤ left r
  unfolding read_behind_header
  read_behind_header-ok r (ok header, r') s msg h done =
      let shorter = read_exact-ok 4 r header r' h in omega (arith, read_payload-le _ r' s)
  read_behind_header-ok r (err unexpected_eof, r') s msg h done = cc
  read_behind_header-ok r (err other_io, r') s msg h done = cc

  pub read_message-ok :
      (r : Reader) (s : S) (msg : T)
      → (read_message codec r s).0 ≡ ok msg
      → left (read_message codec r s).2 + 4 ≤ left r
  unfolding read_message
  read_message-ok r s msg done = read_behind_header-ok r (read_exact 4 r) s msg refl done

  -- A stream that has ended between two messages.
  pub read_message-closed :
      (s : S)
      → read_message codec (record { pending = []; ending = closed }) s
        ≡ (err connection_closed, s, record { pending = []; ending = closed })
  unfolding read_message read_behind_header read_exact
  read_message-closed s = refl
