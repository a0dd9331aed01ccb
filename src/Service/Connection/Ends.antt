-- ===== src/Service/Connection/Ends.antt =====
-- session.rs: the loop of `handle_client` ends, whatever the client sends.
use bitsafe.Prelude.{ℕ, zero, suc, ◌+◌, ◌≤◌, ◌<◌, ◌≡◌, refl, Bool, true, false, Option, some, arith}
use bitsafe.Prelude.Bytes.{Bytes}
use bitsafe.Prelude.Results.{Result, ok, err}
use bitsafe.Protocol.Stream.{Reader, Writer, left}
use bitsafe.Protocol.Codec.{CodecError, EncryptedCodec, encrypted_codec}
use bitsafe.Protocol.Codec.Progress.{read_message-ok}
use bitsafe.Protocol.Codec.Handshake.{handshake_server, handshake_server-le}
use bitsafe.Protocol.Request.{Request}
use bitsafe.Sdk.Act.{◌>>=◌, continue}
use bitsafe.Service.World.{Outside}
use bitsafe.Service.Task.{Sys}
use bitsafe.Service.Connection.{
  Closing, Closed, Connection, Wire, read_within, read_request, received, answer_request,
  write_response, sent, serve_request, serve_requests, next_round, open_channel, handshake_within,
  handle_client,
}

module _ {C : Type 0} (o : Outside C) (v : Wire) (peer_pid : Option ℕ) where
  received-reader :
      (k : Connection C) (p : Result CodecError Request × EncryptedCodec × Reader)
      → (received o v peer_pid k p).1.reader ≡ p.2
  unfolding received
  received-reader k (ok request, c, r) = refl
  received-reader k (err e, c, r) = refl

  received-ok :
      (k : Connection C) (p : Result CodecError Request × EncryptedCodec × Reader)
      (request : Request)
      → (received o v peer_pid k p).0 ≡ ok request
      → p.0 ≡ ok request
  unfolding received
  received-ok k (ok request, c, r) other h = cc
  received-ok k (err e, c, r) other h = cc

  read_within-ok :
      (timely : Bool) (k : Connection C) (request : Request)
      → (read_within o v peer_pid timely k).0 ≡ ok request
      → left (read_within o v peer_pid timely k).1.reader + 4 ≤ left k.reader
  unfolding read_within
  read_within-ok true k request h = rw (received-reader k _) (
      read_message-ok (encrypted_codec v.aead v.requests) k.reader k.codec request
        (received-ok k _ request h))
  read_within-ok false k request h = cc

  sent-reader :
      (k : Connection C) (p : Result CodecError (Unit {0}) × EncryptedCodec × Writer)
      → (sent o v peer_pid k p).1.reader ≡ k.reader
  unfolding sent
  sent-reader k (ok _, c, w) = refl
  sent-reader k (err e, c, w) = refl

  -- A round that does not end the connection took bytes from the stream.
  abbrev Takes : Connection C → Result Closing (Unit {0}) × Connection C → Type 0
  Takes k (ok _, k') = left k'.reader < left k.reader
  Takes k (err why, k') = Unit {0}

  written-Takes :
      (k k' : Connection C) (p : Result CodecError (Unit {0}) × EncryptedCodec × Writer)
      → left k'.reader < left k.reader
      → Takes k (sent o v peer_pid k' p)
  unfolding sent
  written-Takes k k' (ok _, c, w) h = h
  written-Takes k k' (err e, c, w) h = tt

  -- The rest of a round, behind the reading of a request.
  answered-Takes :
      (k : Connection C) (p : Result Closing Request × Connection C)
      → ((request : Request) → p.0 ≡ ok request → left p.1.reader < left k.reader)
      → Takes k (
          continue p.0
            (λ request. answer_request o v peer_pid request >>= write_response o v peer_pid)
            p.1)
  unfolding answer_request write_response ◌>>=◌
  answered-Takes k (ok request, k') h =
      written-Takes k (answer_request o v peer_pid request k').1 _ (h request refl)
  answered-Takes k (err why, k') h = tt

  serve_request-Takes : (k : Connection C) → Takes k (serve_request o v peer_pid k)
  unfolding serve_request read_request ◌>>=◌
  serve_request-Takes k =
      answered-Takes k (read_request o v peer_pid k)
        (λ request h. let shorter = read_within-ok (k.timely 0) _ request h in omega arith)

  next_round-ends :
      (k : Connection C) (p : Result Closing (Unit {0}) × Connection C)
      (again : Connection C → Option (Closed C))
      → Takes k p
      → ((k' : Connection C)
          → left k'.reader < left k.reader
          → (c : Closed C) × (again k' ≡ some c))
      → (c : Closed C) × (next_round o v peer_pid p again ≡ some c)
  unfolding next_round
  next_round-ends k (ok _, k') again takes ends = ends k' takes
  next_round-ends k (err why, k') again takes ends =
      (record { closing = why; writer = k'.writer; sys = k'.sys }, refl)

  serve_requests-ends :
      (fuel : ℕ) (k : Connection C)
      → left k.reader < fuel
      → (c : Closed C) × (serve_requests o v peer_pid fuel k ≡ some c)
  unfolding serve_requests
  serve_requests-ends zero k h = absurd (omega arith)
  serve_requests-ends (suc fuel) k h =
      next_round-ends k (serve_request o v peer_pid k) (serve_requests o v peer_pid fuel)
        (serve_request-Takes k) (λ k' shorter. serve_requests-ends fuel k' (omega arith))

  open_channel-ends :
      (fuel : ℕ) (timely : ℕ → Bool) (s : Sys C)
      (p : Result CodecError EncryptedCodec × Reader × Writer)
      → left p.1 < fuel
      → (c : Closed C) × (open_channel o v peer_pid fuel timely s p ≡ some c)
  unfolding open_channel
  open_channel-ends fuel timely s (ok c, r, w) h = serve_requests-ends fuel _ h
  open_channel-ends fuel timely s (err e, r, w) h = (_, refl)

  handshake_within-ends :
      (in_time : Bool) (fuel : ℕ) (secret : Bytes) (timely : ℕ → Bool) (r : Reader) (w : Writer)
      (s : Sys C)
      → left r < fuel
      → (c : Closed C) × (handshake_within o v peer_pid in_time fuel secret timely r w s ≡ some c)
  unfolding handshake_within
  handshake_within-ends true fuel secret timely r w s h =
      let taken = handshake_server-le v.exchange secret r w in
      open_channel-ends fuel timely s (handshake_server v.exchange secret r w) (omega arith)
  handshake_within-ends false fuel secret timely r w s h = (_, refl)

  -- A connection ends: with more fuel than the client sends bytes, the service comes to a `return`,
  -- whatever the bytes are, however the stream ends, and whether or not the client is in time.
  pub handle_client-ends :
      (fuel : ℕ) (secret : Bytes) (timely : ℕ → Bool) (r : Reader) (w : Writer) (s : Sys C)
      → left r < fuel
      → (c : Closed C) × (handle_client o v peer_pid fuel secret timely r w s ≡ some c)
  unfolding handle_client
  handle_client-ends fuel secret timely = handshake_within-ends (timely 0) fuel secret _
