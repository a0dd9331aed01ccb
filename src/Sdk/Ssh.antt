-- ===== src/Sdk/Ssh.antt =====
-- crates/grimoire-sdk/src/ssh.rs: `SshClient`. The calls of the Bitwarden SDK and the libraries that
-- parse a key and sign are parameters; `zeroize` is left out.
use bitsafe.Prelude.{
  ℕ, ◌/◌, ◌%◌, ◌^◌, Bool, true, false, Option, none, some, List, [], ◌∷◌, ◌++◌, length, ◌==◌,
  if◌then◌else◌,
}
use bitsafe.Prelude.Bytes.{Bytes, u32_to_be_bytes}
use bitsafe.Prelude.Texts.{Text, text}
use bitsafe.Prelude.Strings.{or_else}
use bitsafe.Prelude.Results.{Result, ok, err, map_err, ok_or, ◌>>=◌}
use bitsafe.Sdk.{SdkError, internal, not_found}
use bitsafe.Sdk.Client.{SshKey}
use bitsafe.Sdk.Vault.{ViewType, ssh_key_view}

-- `bitwarden_vault::CipherView`, as far as the code reads it.
pub record SshKeyView : Type 0 where
  pub private_key : Text
  pub public_key : Text
  pub fingerprint : Text

pub record SshCipherView : Type 0 where
  pub id : Option Text
  pub name : Text
  pub kind : ViewType
  pub ssh_key : Option SshKeyView

-- `ssh_key::private::KeypairData`: the private bytes of an Ed25519 key, the numbers of an RSA key
-- (n, e, d, p and q), and any other key, as it prints.
pub record RsaNumbers : Type 0 where
  pub n : Bytes
  pub e : Bytes
  pub d : Bytes
  pub p : Bytes
  pub q : Bytes

pub data KeypairData : Type 0 where
  ed25519 : Bytes → KeypairData
  rsa : RsaNumbers → KeypairData
  other : Text → KeypairData

pub record SshLibraries (C : Type 0) : Type 1 where
  pub RsaKey : Type 0
  pub get_all : C → Result Text (List SshCipherView)
  pub get : C → Text → Result Text SshCipherView
  pub from_openssh : Text → Result Text KeypairData
  pub sign_ed25519 : Bytes → Bytes → Bytes
  pub from_components : RsaNumbers → Result Text RsaKey
  pub sign_sha512 : RsaKey → Bytes → Bytes
  pub sign_sha256 : RsaKey → Bytes → Bytes

unfoldable pub encode_ssh_signature : Bytes → Bytes → Bytes
encode_ssh_signature algorithm signature =
    u32_to_be_bytes (length algorithm % 2 ^ 32)
    ++ (algorithm ++ (u32_to_be_bytes (length signature % 2 ^ 32) ++ signature))

-- `filter` and `filter_map`
key_of : SshCipherView → Option SshKeyView → List SshKey → List SshKey
key_of c none keys = keys
key_of c (some ssh) keys =
    record {
      id = or_else c.id [];
      name = c.name;
      public_key = ssh.public_key;
      fingerprint = ssh.fingerprint;
    }
    ∷ keys

is_ssh_key : ViewType → Bool
is_ssh_key ssh_key_view = true
is_ssh_key _ = false

keys_of : List SshCipherView → List SshKey
unfolding key_of is_ssh_key
keys_of [] = []
keys_of (c ∷ cs) =
    let rest = keys_of cs in if is_ssh_key c.kind then key_of c c.ssh_key rest else rest

-- `flags & SSH_AGENT_RSA_SHA2_512 != 0`, the bit of value 4.
unfoldable pub wants_sha512 : ℕ → Bool
wants_sha512 flags = flags / 4 % 2 == 1

module _ {C : Type 0} (l : SshLibraries C) where
  unfoldable pub list_keys : C → Result SdkError (List SshKey)
  unfolding keys_of
  list_keys c = do
    successes ← map_err (λ e. internal (text "Failed to list ciphers: " ++ e)) (l.get_all c)
    ok (keys_of successes)

  -- `true` where the flag asks for SHA-512.
  unfoldable pub sign_rsa : Bool → l.RsaKey → Bytes → Bytes
  sign_rsa true key bytes = encode_ssh_signature (text "rsa-sha2-512") (l.sign_sha512 key bytes)
  sign_rsa false key bytes = encode_ssh_signature (text "rsa-sha2-256") (l.sign_sha256 key bytes)

  unfoldable pub sign_with_key : KeypairData → Bytes → ℕ → Result SdkError Bytes
  unfolding sign_rsa wants_sha512
  sign_with_key (ed25519 key) bytes flags =
      ok (encode_ssh_signature (text "ssh-ed25519") (l.sign_ed25519 key bytes))
  sign_with_key (rsa numbers) bytes flags = do
    key ← map_err (λ e. internal (text "RSA key error: " ++ e)) (l.from_components numbers)
    ok (sign_rsa (wants_sha512 flags) key bytes)
  sign_with_key (other kind) bytes flags =
      err (internal (text "Unsupported SSH key type for signing: " ++ kind))

  unfoldable pub sign : C → Text → Bytes → ℕ → Result SdkError Bytes
  unfolding sign_with_key
  sign c key_id bytes flags = do
    view ← map_err (λ e. not_found (text "SSH key not found: " ++ e)) (l.get c key_id)
    ssh_key_of_view ← ok_or (internal (text "Cipher is not an SSH key")) view.ssh_key
    private_key ←
        map_err (λ e. internal (text "Failed to parse SSH private key: " ++ e))
          (l.from_openssh ssh_key_of_view.private_key)
    sign_with_key private_key bytes flags
