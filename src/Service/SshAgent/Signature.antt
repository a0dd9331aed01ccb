-- ===== src/Service/SshAgent/Signature.antt =====
-- ssh_agent.rs: `parse_ssh_signature`, which reads what crates/grimoire-sdk/src/ssh.rs writes.
pub mod Signed
use bitsafe.Prelude.{
  ℕ, suc, ◌+◌, ◌%◌, ◌^◌, ◌<◌, ◌≡◌, refl, ap, ◌∙◌, ◌++◌, arith, ltb, length, take, drop,
  length-append, le→ltb_false, take-append_of_length, drop-append_of_length, take-length,
}
use bitsafe.Prelude.Bytes.{Bytes, u32_to_be_bytes, u32_from_be_bytes}
use bitsafe.Prelude.Texts.{Text, text}
use bitsafe.Prelude.Results.{Result, ◌>>=◌, ◌>>◌, reject_if, map_err}
use bitsafe.Sdk.Ssh.{encode_ssh_signature}

-- `str::from_utf8`, and of ssh_key the parsing of an algorithm and `Signature::new`.
pub record SshLibrary (Sig : Type 0) : Type 1 where
  pub Algorithm : Type 0
  pub from_utf8 : Bytes → Result Text Text
  pub algorithm : Text → Result Text Algorithm
  pub new_signature : Algorithm → Bytes → Result Text Sig

-- The u32 that stands at an offset.
abbrev u32_at : ℕ → Bytes → ℕ
u32_at offset bytes = u32_from_be_bytes (take 4 (drop offset bytes))

module _ {Sig : Type 0} (lib : SshLibrary Sig) where
  -- What is made of the two parts.
  read_algorithm : Text → Bytes → Result Text Sig
  read_algorithm algo_str sig_data = do
    algorithm ←
        map_err (λ e. text "Unknown algorithm " ++ (algo_str ++ (text ": " ++ e)))
          (lib.algorithm algo_str)
    map_err (λ e. text "Signature error: " ++ e) (lib.new_signature algorithm sig_data)

  pub read_parts : Bytes → Bytes → Result Text Sig
  unfolding read_algorithm
  read_parts algorithm sig_data = do
    algo_str ← map_err (λ e. text "Bad algo: " ++ e) (lib.from_utf8 algorithm)
    read_algorithm algo_str sig_data

  pub parse_ssh_signature : Bytes → Result Text Sig
  unfolding read_algorithm
  parse_ssh_signature bytes = do
    reject_if (ltb (length bytes) 8) (text "Signature too short")
    let algo_len = u32_at 0 bytes
    reject_if (ltb (length bytes) (4 + algo_len + 4)) (text "Signature truncated")
    algo_str ← map_err (λ e. text "Bad algo: " ++ e) (lib.from_utf8 (take algo_len (drop 4 bytes)))
    let sig_len = u32_at (4 + algo_len) bytes
    reject_if (ltb (length bytes) (4 + algo_len + 4 + sig_len)) (text "Signature data truncated")
    read_algorithm algo_str (take sig_len (drop (4 + algo_len + 4) bytes))

module _ (algorithm signature : Bytes) where
  header :
      length algorithm < 2 ^ 32
      → u32_at 0 (encode_ssh_signature algorithm signature) ≡ length algorithm
  unfolding encode_ssh_signature u32_to_be_bytes u32_from_be_bytes
  header h = omega arith

  algorithm_part :
      take (length algorithm) (drop 4 (encode_ssh_signature algorithm signature)) ≡ algorithm
  unfolding encode_ssh_signature u32_to_be_bytes
  algorithm_part = take-append_of_length algorithm _ (length algorithm) refl

  behind_algorithm :
      (m : ℕ)
      → drop (4 + length algorithm + m) (encode_ssh_signature algorithm signature)
        ≡ drop m (u32_to_be_bytes (length signature % 2 ^ 32) ++ signature)
  unfolding encode_ssh_signature u32_to_be_bytes
  behind_algorithm m =
      let flat : 4 + length algorithm + m ≡ suc (suc (suc (suc (length algorithm + m)))) =
        omega arith in
      ap (λ n. drop n (encode_ssh_signature algorithm signature)) flat
      ∙ drop-append_of_length algorithm _ (length algorithm) m refl

  signature_length :
      length signature < 2 ^ 32
      → u32_at (4 + length algorithm) (encode_ssh_signature algorithm signature) ≡ length signature
  unfolding u32_to_be_bytes u32_from_be_bytes
  signature_length h =
      let flat : 4 + length algorithm ≡ 4 + length algorithm + 0 = omega arith in
      ap (λ n. u32_at n (encode_ssh_signature algorithm signature)) flat
      ∙ (ap (λ b. u32_from_be_bytes (take 4 b)) (behind_algorithm 0) ∙ omega arith)

  signature_part :
      take
        (length signature)
        (drop (4 + length algorithm + 4) (encode_ssh_signature algorithm signature))
      ≡ signature
  unfolding u32_to_be_bytes
  signature_part = ap (take (length signature)) (behind_algorithm 4) ∙ take-length signature

  encoded_length :
      length (encode_ssh_signature algorithm signature) ≡ 8 + (length algorithm + length signature)
  unfolding encode_ssh_signature u32_to_be_bytes
  encoded_length =
      omega
        (arith, length-append algorithm (u32_to_be_bytes (length signature % 2 ^ 32) ++ signature))

module _ {Sig : Type 0} (lib : SshLibrary Sig) where
  -- The wire format is read back: a signature that was encoded, with an algorithm and data shorter
  -- than 4 GiB, is parsed into exactly the two parts that it was encoded from.
  pub parse-encode_ssh_signature :
      (algorithm signature : Bytes)
      → length algorithm < 2 ^ 32
      → length signature < 2 ^ 32
      → parse_ssh_signature lib (encode_ssh_signature algorithm signature)
        ≡ read_parts lib algorithm signature
  unfolding parse_ssh_signature read_parts
  parse-encode_ssh_signature algorithm signature ha hs =
      let x = encode_ssh_signature algorithm signature in
      let size = encoded_length algorithm signature in
      rw (le→ltb_false (length x) 8 (omega arith)) (
        rw (header algorithm signature ha) (
          rw (le→ltb_false (length x) (4 + length algorithm + 4) (omega arith)) (
            rw (signature_length algorithm signature hs) (
              rw
                (le→ltb_false (length x) (4 + length algorithm + 4 + length signature)
                  (omega arith))
                (rw (algorithm_part algorithm signature, signature_part algorithm signature))))))
