-- ===== src/Service/SshAgent/Signature/Signed.antt =====
-- ssh_agent.rs: the agent reads what crates/grimoire-sdk/src/ssh.rs signs.
use bitsafe.Prelude.{
  ℕ, ◌<◌, ◌^◌, ◌/◌, ◌%◌, ◌==◌, ◌≡◌, ◌∙◌, ◌++◌, refl, subst, inl, inr, Bool-cases, if◌then◌else◌,
  length, arith,
}
use bitsafe.Prelude.Bytes.{Bytes}
use bitsafe.Prelude.Texts.{Text, text}
use bitsafe.Prelude.Results.{ok, map_err, map_err-eq-ok, >>=-eq-ok, ok-injective}
use bitsafe.Sdk.Ssh.{
  SshLibraries, KeypairData, RsaNumbers, ed25519, rsa, other, encode_ssh_signature, wants_sha512,
  sign_rsa, sign_with_key,
}
use bitsafe.Service.SshAgent.Signature.{
  SshLibrary, read_parts, parse_ssh_signature, parse-encode_ssh_signature,
}

module _ {C Sig : Type 0} (l : SshLibraries C) (lib : SshLibrary Sig) where
  -- Signatures fit a length of 32 bits.
  pub record ShortSignatures : Type 0 where
    pub short_ed25519 : (key bytes : Bytes) → length (l.sign_ed25519 key bytes) < 2 ^ 32
    pub short_sha512 : (key : l.RsaKey) (bytes : Bytes) → length (l.sign_sha512 key bytes) < 2 ^ 32
    pub short_sha256 : (key : l.RsaKey) (bytes : Bytes) → length (l.sign_sha256 key bytes) < 2 ^ 32

  -- The agent's library knows a name, which is UTF-8, as an algorithm.
  pub record Knows (name : Text) (algorithm : lib.Algorithm) : Type 0 where
    pub utf8 : lib.from_utf8 name ≡ ok name
    pub known : lib.algorithm name ≡ ok algorithm

  pub record KnownNames : Type 0 where
    pub ed25519_name : lib.Algorithm
    pub sha512_name : lib.Algorithm
    pub sha256_name : lib.Algorithm
    pub knows_ed25519 : Knows (text "ssh-ed25519") ed25519_name
    pub knows_sha512 : Knows (text "rsa-sha2-512") sha512_name
    pub knows_sha256 : Knows (text "rsa-sha2-256") sha256_name

  -- The agent reads what its library makes of this algorithm and these bytes of a signature.
  abbrev pub IsRead : lib.Algorithm → Bytes → Bytes → Type 0
  IsRead algorithm signature out =
      parse_ssh_signature lib out
      ≡ map_err (λ e. text "Signature error: " ++ e) (lib.new_signature algorithm signature)

  -- Which signature of the bytes it reads: of an RSA key, the bit of value 4 in the flags decides.
  abbrev pub ReadsAs : KnownNames → KeypairData → Bytes → ℕ → Bytes → Type 0
  ReadsAs names (ed25519 key) bytes flags out =
      IsRead names.ed25519_name (l.sign_ed25519 key bytes) out
  ReadsAs names (rsa numbers) bytes flags out =
      (key : l.RsaKey) × (l.from_components numbers ≡ ok key)
      × (if flags / 4 % 2 == 1
          then IsRead names.sha512_name (l.sign_sha512 key bytes) out
          else IsRead names.sha256_name (l.sign_sha256 key bytes) out)
  ReadsAs names (other kind) bytes flags out = ⊥

  known_parts :
      (name : Text) (algorithm : lib.Algorithm) (signature : Bytes)
      → Knows name algorithm
      → read_parts lib name signature
        ≡ map_err (λ e. text "Signature error: " ++ e) (lib.new_signature algorithm signature)
  unfolding read_parts
  known_parts name algorithm signature knows = rw (knows.utf8, knows.known) refl

  module _ (short : ShortSignatures) (names : KnownNames) where
    reads :
        (name : Text) (algorithm : lib.Algorithm) (signature : Bytes)
        → Knows name algorithm
        → length name < 2 ^ 32
        → length signature < 2 ^ 32
        → IsRead algorithm signature (encode_ssh_signature name signature)
    reads name algorithm signature knows hn hd =
        parse-encode_ssh_signature lib name signature hn hd
        ∙ known_parts name algorithm signature knows

    reads_rsa :
        (numbers : RsaNumbers) (key : l.RsaKey) (bytes : Bytes) (flags : ℕ)
        → l.from_components numbers ≡ ok key
        → ReadsAs names (rsa numbers) bytes flags (sign_rsa l (wants_sha512 flags) key bytes)
    unfolding sign_rsa wants_sha512 text
    reads_rsa numbers key bytes flags h = elim (Bool-cases (flags / 4 % 2 == 1)) [
      | inl set ↦ rw set (
        key,
        h,
        reads (text "rsa-sha2-512") names.sha512_name (l.sign_sha512 key bytes) names.knows_sha512
            (omega arith) (short.short_sha512 key bytes),
      )
      | inr unset ↦ rw unset (
        key,
        h,
        reads (text "rsa-sha2-256") names.sha256_name (l.sign_sha256 key bytes) names.knows_sha256
            (omega arith) (short.short_sha256 key bytes),
      )
    ]

    -- What the SDK client signs, the agent reads: where signing succeeds, the agent parses the
    -- result into what its library makes of the algorithm's name and of exactly the signature that
    -- the key's own function gave of the bytes: Ed25519 for an Ed25519 key, and for an RSA key, made
    -- from the numbers that were stored, SHA-512 where the bit of value 4 is set in the flags and
    -- SHA-256 where it is not; a key of another kind does not sign. The libraries' signatures are
    -- taken to be shorter than 4 GiB, and the agent's library to know the three names.
    pub sign_with_key-ReadsAs :
        (key : KeypairData) (bytes : Bytes) (flags : ℕ) (out : Bytes)
        → sign_with_key l key bytes flags ≡ ok out
        → ReadsAs names key bytes flags out
    unfolding sign_with_key text
    sign_with_key-ReadsAs (ed25519 key) bytes flags out h =
        subst (IsRead names.ed25519_name (l.sign_ed25519 key bytes)) (ok-injective h) (
          reads (text "ssh-ed25519") names.ed25519_name (l.sign_ed25519 key bytes)
            names.knows_ed25519 (omega arith) (short.short_ed25519 key bytes))
    sign_with_key-ReadsAs (rsa numbers) bytes flags out h =
        let (key, made, signed) = >>=-eq-ok (map_err _ (l.from_components numbers)) _ h in
        subst (ReadsAs names (rsa numbers) bytes flags) (ok-injective signed)
          (reads_rsa numbers key bytes flags (map_err-eq-ok _ (l.from_components numbers) made))
    sign_with_key-ReadsAs (other kind) bytes flags out h = absurd (cc)
