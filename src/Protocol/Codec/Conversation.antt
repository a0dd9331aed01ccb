-- ===== src/Protocol/Codec/Conversation.antt =====
-- codec.rs: several messages on one encrypted connection, as a client writes them and the service
-- reads them.
use bitsafe.Prelude.{
  ◌+◌, ◌^◌, ◌≤◌, ◌<◌, ◌≡◌, refl, sym, inr, List, [], ◌∷◌, arith, length, ap, ◌∙◌, some, true, All,
}
use bitsafe.Prelude.Bytes.{Bytes}
use bitsafe.Prelude.Results.{Result, ok}
use bitsafe.Protocol.Stream.{closed, Writer}
use bitsafe.Protocol.Codec.{
  CodecError, EncryptedCodec, max_message_size, is_replay, nonce_from_counter, encrypted_codec,
  decode, read_message, write_message,
}
use bitsafe.Protocol.Codec.Crypto.{Json, IsJson, Aead, IsAead}
use bitsafe.Protocol.Codec.Plain.{decoded}
use bitsafe.Protocol.Codec.Channel.{
  IsFresh, empty_writer, CanSend, after_send, after_receive, sealed_payload, decode-sealed,
  write_message-sealed, read_message-sealed, decode-sealed_stale,
}
use bitsafe.Protocol.Codec.Replay.{replayed}
use mathlib.Core.List.{append-nil}

module _ {T : Type 0} (a : Aead) (j : Json T) where
  -- One message: the client writes it, and the service reads what was written.
  receive :
      Result CodecError (Unit {0}) × EncryptedCodec × Writer
      → EncryptedCodec
      → Result CodecError T × EncryptedCodec × EncryptedCodec
  receive (_, c', w) s =
      let (r, s', _) =
        read_message (encrypted_codec a j) (record { pending = w.written; ending = closed }) s in
      (r, c', s')

  pub deliver :
      EncryptedCodec → EncryptedCodec → T → Result CodecError T × EncryptedCodec × EncryptedCodec
  unfolding receive
  deliver c s msg = receive (write_message (encrypted_codec a j) empty_writer c msg) s

  pub deliver_all : EncryptedCodec → EncryptedCodec → List T → List (Result CodecError T)
  deliver_all c s [] = []
  deliver_all c s (msg ∷ rest) = let (r, c', s') = deliver c s msg in r ∷ deliver_all c' s' rest

  -- Every other message gets through.
  abbrev pub alternate : List T → List (Result CodecError T)
  alternate [] = []
  alternate (msg ∷ []) = ok msg ∷ []
  alternate (msg ∷ _ ∷ rest) = ok msg ∷ replayed ∷ alternate rest

  -- A message of at most 1 MiB with its counter and tag.
  abbrev pub IsSmall : T → Type 0
  IsSmall msg =
      (plaintext : Bytes) × (j.to_vec msg ≡ ok plaintext)
      × (length plaintext + 24 ≤ max_message_size)

  module _ (la : IsAead a) (lj : IsJson j) (key : Bytes) (seal : Bytes → Bytes → Bytes)
      (total : (nonce plaintext : Bytes)
        → a.encrypt key nonce plaintext ≡ some (seal nonce plaintext)) where
    can_send :
        (c : EncryptedCodec) (msg : T) (small : IsSmall msg)
        → c.send_cipher ≡ key
        → c.send_counter < 2 ^ 64
        → CanSend a j c msg (seal (nonce_from_counter c.send_counter) small.0)
    can_send c msg (plaintext, serialized, fits) hk hc =
        let sealed = total (nonce_from_counter c.send_counter) plaintext in
        record {
          plaintext = plaintext;
          serialized = serialized;
          sealed = rw hk sealed;
          fits = omega (arith, la.length-encrypt key _ plaintext _ sealed);
          in_range = hc;
        }

    -- What the service makes of a message is what `decode` makes of its payload.
    deliver-small :
        (c s : EncryptedCodec) (msg : T) (small : IsSmall msg)
        (r : Result CodecError T × EncryptedCodec)
        → c.send_cipher ≡ key
        → c.send_counter < 2 ^ 64
        → decode a j s (sealed_payload a j c (seal (nonce_from_counter c.send_counter) small.0)) ≡ r
        → deliver c s msg ≡ (r.0, after_send a j c, r.1)
    unfolding deliver
    deliver-small c s msg small r hc hn h =
        let fine = can_send c msg small hc hn in
        ap (λ w. receive w s) (write_message-sealed a j la lj c msg _ fine)
        ∙ ap (λ m. let (result, s', _) = m in (result, after_send a j c, s'))
            (rw append-nil at (read_message-sealed a j la lj c s msg _ [] closed fine)
              ∙ ap (λ d. decoded d (record { pending = []; ending = closed })) h)

    deliver-fresh :
        (c s : EncryptedCodec) (msg : T)
        → IsSmall msg
        → c.send_cipher ≡ key
        → s.recv_cipher ≡ key
        → c.send_counter < 2 ^ 64
        → IsFresh c.send_counter s.recv_counter
        → deliver c s msg ≡ (ok msg, after_send a j c, after_receive a j s c.send_counter)
    deliver-fresh c s msg small hc hs hn fresh =
        deliver-small c s msg small _ hc hn
          (decode-sealed a j la lj c s msg _ (can_send c msg small hc hn) (hs ∙ sym hc) fresh)

    deliver-stale :
        (c s : EncryptedCodec) (msg : T)
        → IsSmall msg
        → c.send_cipher ≡ key
        → c.send_counter < 2 ^ 64
        → is_replay c.send_counter s.recv_counter ≡ true
        → deliver c s msg ≡ (replayed, after_send a j c, s)
    deliver-stale c s msg small hc hn stale =
        deliver-small c s msg small _ hc hn
          (decode-sealed_stale a j la lj c s msg _ (can_send c msg small hc hn) stale)

    deliver-pair :
        (c s : EncryptedCodec) (m n : T) (rest : List T)
        → IsSmall m
        → IsSmall n
        → c.send_cipher ≡ key
        → s.recv_cipher ≡ key
        → c.send_counter + 1 < 2 ^ 64
        → IsFresh c.send_counter s.recv_counter
        → deliver_all c s (m ∷ n ∷ rest)
          ≡ ok m
            ∷ replayed
            ∷ deliver_all
                (after_send a j (after_send a j c))
                (after_receive a j s c.send_counter)
                rest
    unfolding deliver_all
    deliver-pair c s m n rest hm hn hc hs hk fresh = rw (
      deliver-fresh c s m hm hc hs (omega arith) fresh,
      deliver-stale (after_send a j c) (after_receive a j s c.send_counter) n hn hc (omega arith)
          (ground arith),
    )

    -- On one connection, from counters where the service has not passed the client, the first
    -- message of each two gets through and the second is refused as replayed: the counter that is
    -- kept is one past the last accepted one, and a message that carries it is refused. The messages
    -- are taken to serialize, to at most 1 MiB when sealed, and the encryption never to fail.
    pub every_second_refused :
        (c s : EncryptedCodec) (msgs : List T)
        → All IsSmall msgs
        → c.send_cipher ≡ key
        → s.recv_cipher ≡ key
        → c.send_counter + length msgs < 2 ^ 64
        → IsFresh c.send_counter s.recv_counter
        → deliver_all c s msgs ≡ alternate msgs
    unfolding deliver_all
    every_second_refused c s [] small hc hs hn fresh = refl
    every_second_refused c s (m ∷ []) (hm, _) hc hs hn fresh =
        rw (deliver-fresh c s m hm hc hs (omega arith) fresh)
    every_second_refused c s (m ∷ n ∷ rest) (hm, (hn, hr)) hc hs hk fresh =
        deliver-pair c s m n rest hm hn hc hs (omega arith) fresh
        ∙ ap (λ t. ok m ∷ replayed ∷ t)
            (every_second_refused (after_send a j (after_send a j c))
              (after_receive a j s c.send_counter) rest hr hc hs (ground arith) (inr (omega arith)))
