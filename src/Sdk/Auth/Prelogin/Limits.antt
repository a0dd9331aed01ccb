-- ===== src/Sdk/Auth/Prelogin/Limits.antt =====
-- auth.rs: the limits on what the server says of the key derivation.
use bitsafe.Prelude.{ℕ, zero, suc, ◌<◌, ◌≤◌, ◌≡◌, arith, ltb, not, subst}
use bitsafe.Prelude.Texts.{Text, text}
use bitsafe.Prelude.Results.{
  Result, ok, map_err, ok_or, reject_if, ◌>>=◌, ◌>>◌, >>=-eq-ok, ok-injective,
}
use bitsafe.Protocol.Response.{ℤ, pos, negsuc}
use bitsafe.Sdk.{SdkError}
use bitsafe.Sdk.Auth.Prelogin.{
  Document, Network, to_u32, bounded_u32, non_zero, pbkdf2_of, argon2id_of, kdf_by_type, kdf_of,
  prelogin, above, either_case, i64_or,
}
use bitsafe.Sdk.Cache.Floor.{Kdf}

abbrev pub IsBounded : Kdf → Type 0
IsBounded (Kdf.pbkdf2 iterations) = (0 < iterations) × (iterations ≤ 2000000)
IsBounded (Kdf.argon2id iterations memory parallelism) =
    ((0 < iterations) × (iterations ≤ 20))
    × ((0 < memory) × (memory ≤ 4096))
    × ((0 < parallelism) × (parallelism ≤ 16))

reject_above :
    (val max n : ℕ) (e : SdkError) → (reject_if (ltb max val) e >> ok val) ≡ ok n → n ≤ max
reject_above val max n e h = ground arith

bounded_u32-le : (v : ℤ) (name : Text) (max n : ℕ) → bounded_u32 v name max ≡ ok n → n ≤ max
unfolding bounded_u32
bounded_u32-le v name max n h =
    let (val, _, rest) = >>=-eq-ok (to_u32 v name) _ h in
    reject_above val max n (above name val max) rest

non_zero-eq : (n m : ℕ) (message : Text) → non_zero n message ≡ ok m → (0 < m) × (m ≡ n)
unfolding non_zero
non_zero-eq zero m message h = absurd (cc)
non_zero-eq (suc n) m message h = ground arith

-- A number of the server that the rest of the function goes on with.
in_range :
    (v : ℤ) (name : Text) (max : ℕ) (message : Text) (next : ℕ → Result SdkError Kdf) (kdf : Kdf)
    → (bounded_u32 v name max >>= λ n. non_zero n message >>= next) ≡ ok kdf
    → (n : ℕ) × ((0 < n) × (n ≤ max)) × (next n ≡ ok kdf)
in_range v name max message next kdf h =
    let (val, bounded, rest) = >>=-eq-ok (bounded_u32 v name max) _ h in
    let (n, positive, last) = >>=-eq-ok (non_zero val message) next rest in
    let (above_zero, same) = non_zero-eq val n message positive in
    let below_max = bounded_u32-le v name max val bounded in
    (n, (above_zero, omega (arith, below_max, same)), last)

pbkdf2_of-IsBounded : (iterations : ℤ) (kdf : Kdf) → pbkdf2_of iterations ≡ ok kdf → IsBounded kdf
unfolding pbkdf2_of
pbkdf2_of-IsBounded iterations kdf h =
    let (n, range, last) = in_range iterations _ 2000000 _ (λ n. ok (Kdf.pbkdf2 n)) kdf h in
    subst IsBounded (ok-injective last) range

argon2id_of-IsBounded :
    (answer : Document) (iterations : ℤ) (kdf : Kdf)
    → argon2id_of answer iterations ≡ ok kdf
    → IsBounded kdf
unfolding argon2id_of
argon2id_of-IsBounded answer iterations kdf h =
    let (memory, _, h₁) =
      >>=-eq-ok (ok_or _ (either_case answer (text "kdfMemory") (text "KdfMemory"))) _ h in
    let (parallelism, _, h₂) =
      >>=-eq-ok (ok_or _ (either_case answer (text "kdfParallelism") (text "KdfParallelism"))) _
        h₁ in
    let (i, range_i, h₃) = in_range iterations _ 20 _ _ kdf h₂ in
    let (m, range_m, h₄) = in_range memory _ 4096 _ _ kdf h₃ in
    let (p, range_p, last) = in_range parallelism _ 16 _ (λ p. ok (Kdf.argon2id i m p)) kdf h₄ in
    subst IsBounded (ok-injective last) (range_i, range_m, range_p)

kdf_by_type-IsBounded :
    (answer : Document) (kdf_type iterations : ℤ) (kdf : Kdf)
    → kdf_by_type answer kdf_type iterations ≡ ok kdf
    → IsBounded kdf
unfolding kdf_by_type
kdf_by_type-IsBounded answer (pos zero) iterations kdf h = pbkdf2_of-IsBounded iterations kdf h
kdf_by_type-IsBounded answer (pos (suc zero)) iterations kdf h =
    argon2id_of-IsBounded answer iterations kdf h
kdf_by_type-IsBounded answer (pos (suc (suc n))) iterations kdf h = absurd (cc)
kdf_by_type-IsBounded answer (negsuc n) iterations kdf h = absurd (cc)

kdf_of-IsBounded : (answer : Document) (kdf : Kdf) → kdf_of answer ≡ ok kdf → IsBounded kdf
unfolding kdf_of
kdf_of-IsBounded answer kdf h =
    kdf_by_type-IsBounded answer (i64_or (either_case answer (text "kdf") (text "Kdf")) (pos 0))
      (i64_or (either_case answer (text "kdfIterations") (text "KdfIterations")) (pos 600000)) kdf h

pub prelogin-IsBounded :
    (network : Network) (server_url email : Text) (kdf : Kdf)
    → prelogin network server_url email ≡ ok kdf
    → IsBounded kdf
unfolding prelogin
prelogin-IsBounded network server_url email kdf h =
    let (resp, _, h₁) = >>=-eq-ok (map_err _ (network _)) _ h in
    let (_, _, h₂) = >>=-eq-ok (reject_if (not resp.is_success) _) _ h₁ in
    let (answer, _, h₃) = >>=-eq-ok (map_err _ resp.json) _ h₂ in kdf_of-IsBounded answer kdf h₃
