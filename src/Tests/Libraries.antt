-- ===== src/Tests/Libraries.antt =====
-- Stand-ins for the libraries, which compute: messages are their own JSON, sealing appends a tag of
-- 16 bytes, and a shared secret adds the public keys.
use bitsafe.Prelude.{
  ◌+◌, ◌-◌, ◌≡◌, refl, ap, ◌∙◌, Option, some, ◌++◌, arith, length, take, replicate,
  take-append_of_length, length-append,
}
use bitsafe.Prelude.Bytes.{Bytes, to_le_bytes, from_le_bytes, length-to_le_bytes}
use bitsafe.Prelude.Results.{Result, ok}
use bitsafe.Protocol.Codec.Crypto.{Json, IsJson, Aead, IsAead, KeyExchange, IsKeyExchange}

abbrev pub bytes_json : Json Bytes
bytes_json = record { to_vec = λ m. ok m; from_slice = λ b. ok b }

ok_eq : {E : Type 0} {a b : Bytes} → (let r : Result E Bytes = ok a in r) ≡ ok b → a ≡ b
ok_eq h = cc

pub bytes_json-IsJson : IsJson bytes_json
bytes_json-IsJson = record { from_slice-to_vec = λ m bytes h. cc }

abbrev pub tag : Bytes
tag = replicate 16 0

abbrev pub seal_bytes : Bytes → Bytes
seal_bytes plaintext = plaintext ++ tag

abbrev pub open_bytes : Bytes → Option Bytes
open_bytes ciphertext = some (take (length ciphertext - 16) ciphertext)

abbrev pub tag_aead : Aead
tag_aead = record {
  encrypt = λ key nonce plaintext. some (seal_bytes plaintext);
  decrypt = λ key nonce ciphertext. open_bytes ciphertext;
}

open-seal_bytes : (p c : Bytes) → seal_bytes p ≡ c → open_bytes c ≡ some p
open-seal_bytes p c h = rw (← h) (
    ap some (
      ap (λ n. take n (seal_bytes p)) (omega (arith, length-append p tag))
      ∙ take-append_of_length p tag (length p) refl))

pub open-sealed :
    (p c : Bytes)
    → (let o : Option Bytes = some (seal_bytes p) in o) ≡ some c
    → open_bytes c ≡ some p
open-sealed p c h = open-seal_bytes p c cc

length-sealed :
    (p c : Bytes)
    → (let o : Option Bytes = some (seal_bytes p) in o) ≡ some c
    → length c ≡ length p + 16
length-sealed p c h = let same : seal_bytes p ≡ c = cc in rw (← same) (length-append p tag)

pub tag_aead-IsAead : IsAead tag_aead
tag_aead-IsAead = record {
  decrypt-encrypt = λ key nonce p c h. open-sealed p c h;
  length-encrypt = λ key nonce p c h. length-sealed p c h;
}

-- A secret is a number, and its public key the number in 32 bytes.
abbrev pub padded : Bytes → Bytes
padded a = to_le_bytes 32 (from_le_bytes a)

abbrev pub sum_exchange : KeyExchange
sum_exchange = record {
  public_key = padded;
  diffie_hellman = λ a p. to_le_bytes 32 (from_le_bytes (padded a) + from_le_bytes p);
  expand = λ secret info. secret ++ info;
}

pub sum_exchange-IsKeyExchange : IsKeyExchange sum_exchange
sum_exchange-IsKeyExchange = record {
  diffie_hellman_comm = λ a b.
      ap (to_le_bytes 32)
        (let x = from_le_bytes (padded a) in let y = from_le_bytes (padded b) in omega arith);
  length-public_key = λ a. length-to_le_bytes 32 (from_le_bytes a);
}
