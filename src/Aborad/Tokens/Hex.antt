-- ===== src/Aborad/Tokens/Hex.antt =====
-- Hexadecimal hashes: what the client prints is what the daemon reads.
use abora_framework.Common.{
  ℕ, ◌*◌, ◌/◌, ◌%◌, ◌<◌, ◌≡◌, refl, ap, ◌∙◌, arith, false, List, [], ◌∷◌, Option, none, some,
  Option-cases, Result-cases, text_eq, split_once, ok, Text, codes, All, length, len, leb, ◌==◌,
  ==_iff, utf8_len, subst, Result, Bool-cases, inl, inr,
}
use abora_framework.Aborad.Tokens.{
  hex_char, hex_digit, pair_value, decode_pairs, decode_scheme, decode_sha256_hex, hex_encode,
  sha256_hex, RawToken, Entry, StoredToken, TokenStore, from_str, from_raw,
}

hex_digit-hex_char : (d : ℕ) → d < 16 → hex_digit (hex_char d) ≡ some d
hex_digit-hex_char d h = ground arith

hex_char_plain : (d : ℕ) → d < 16 → ((hex_char d == b'+') ≡ false) × (leb 0x80 (hex_char d) ≡ false)
hex_char_plain d h = (ground arith, ground arith)

pair_value-hex_char :
    (b : ℕ) → b < 256 → pair_value (hex_char (b / 16)) (hex_char (b % 16)) ≡ some b
pair_value-hex_char b h =
    let high : b / 16 < 16 = omega arith in
    let low : b % 16 < 16 = omega arith in
    rw
      (
        (hex_char_plain (b / 16) high).0,
        hex_digit-hex_char (b / 16) high,
        hex_digit-hex_char (b % 16) low,
      )
      (ap some (omega arith))

decode_pairs-hex_encode :
    (bytes : List ℕ) → All (λ b. b < 256) bytes → decode_pairs (hex_encode bytes) ≡ ok bytes
unfolding decode_pairs hex_encode
decode_pairs-hex_encode [] h = refl
decode_pairs-hex_encode (b ∷ bs) (hb, h) =
    rw
      (
        (hex_char_plain (b / 16) (omega arith)).1,
        (hex_char_plain (b % 16) (omega arith)).1,
        pair_value-hex_char b hb,
        decode_pairs-hex_encode bs h,
      )
      refl

pub len-hex_encode :
    (bytes : List ℕ) → All (λ b. b < 256) bytes → len (hex_encode bytes) ≡ 2 * length bytes
unfolding hex_encode
len-hex_encode [] h = refl
len-hex_encode (b ∷ bs) (hb, h) = ground (arith, len-hex_encode bs h)

-- The `secret_hash` that the client prints for a secret is decoded to the secret's hash, where a
-- hash is 32 bytes.
pub decode_sha256_hex-sha256_hex :
    (sha256 : Text → List ℕ) (secret : Text)
    → length (sha256 secret) ≡ 32
    → All (λ b. b < 256) (sha256 secret)
    → decode_sha256_hex (sha256_hex sha256 secret) ≡ ok (sha256 secret)
unfolding decode_sha256_hex decode_scheme sha256_hex
decode_sha256_hex-sha256_hex sha256 secret k h =
    let size : len (hex_encode (sha256 secret)) ≡ 64 =
      len-hex_encode (sha256 secret) h ∙ omega arith in
    rw size (decode_pairs-hex_encode (sha256 secret) h)

plain_len : (c : ℕ) → leb 0x80 c ≡ false → utf8_len c ≡ 1
plain_len c h = ground arith

len-decode_pairs :
    (s : Text) (bytes : List ℕ) → decode_pairs s ≡ ok bytes → len s ≡ 2 * length bytes
unfolding decode_pairs
len-decode_pairs [] bytes h = ground arith
len-decode_pairs (c ∷ []) bytes h = ground arith
len-decode_pairs (c ∷ d ∷ s) bytes h = elim (Bool-cases (leb 0x80 c)) [
  | inl wide ↦ absurd (ground arith)
  | inr plain ↦ elim (Bool-cases (leb 0x80 d)) [
    | inl wide ↦ cc (rw (plain, wide, decode_pairs) at h)
    | inr plain' ↦ elim (Option-cases (pair_value c d)) [
      | inl bad ↦ cc (rw (plain, plain', bad, decode_pairs) at h)
      | inr (byte, good) ↦ elim (Result-cases (decode_pairs s)) [
        | inr (e, failed) ↦ cc (rw (plain, plain', good, failed, decode_pairs) at h)
        | inl (rest, decoded) ↦
            let same : ok (byte ∷ rest) ≡ ok bytes =
              rw (plain, plain', good, decoded, decode_pairs) at h in
            let bytes_is : byte ∷ rest ≡ bytes = cc in
            omega (
              arith,
              plain_len c plain,
              plain_len d plain',
              len-decode_pairs s rest decoded,
              ap length bytes_is,
            )
      ]
    ]
  ]
]

length-decode_scheme :
    (prefixed : Text) (cut : Option (Text × Text)) (bytes : List ℕ)
    → decode_scheme prefixed cut ≡ ok bytes
    → length bytes ≡ 32
unfolding decode_scheme
length-decode_scheme prefixed none bytes h = cc
length-decode_scheme prefixed (some (scheme, hex)) bytes h =
    elim (Bool-cases (text_eq scheme (codes "sha256"))) [
      | inr other ↦ cc (rw (other, decode_scheme) at h)
      | inl known ↦ elim (Bool-cases (len hex == 64)) [
        | inr odd ↦ cc (rw (known, odd, decode_scheme) at h)
        | inl right ↦
            let size = len-decode_pairs hex bytes (rw (known, right, decode_scheme) at h) in
            omega (arith, size, (==_iff (len hex) 64).0 right)
      ]
    ]

-- Every hash has 32 bytes.
abbrev pub HasHashes : TokenStore → Type 0
HasHashes store = All (λ (e : Entry). length e.hash ≡ 32) store.entries

from_raw-HasHashes :
    (raws : List RawToken) (store : TokenStore) → from_raw raws ≡ ok store → HasHashes store
unfolding from_raw decode_sha256_hex
from_raw-HasHashes [] store h =
    let same : record { entries = [] } ≡ store = cc in subst HasHashes same tt
from_raw-HasHashes (raw ∷ raws) store h = elim (Result-cases (decode_sha256_hex raw.secret_hash)) [
  | inr (e, bad) ↦ cc (rw (bad, from_raw) at h)
  | inl (hash, good) ↦ elim (Result-cases (from_raw raws)) [
    | inr (e, bad) ↦ cc (rw (good, bad, from_raw) at h)
    | inl (rest, loaded) ↦
        let token : StoredToken = record {
          name = raw.raw_name;
          permissions = raw.raw_permissions;
        } in
        let entry : Entry = record { token = token; hash = hash } in
        let grown : TokenStore = record { entries = entry ∷ rest.entries } in
        let added : ok grown ≡ ok store = rw (good, loaded, from_raw) at h in
        let same : grown ≡ store = cc in
        subst HasHashes same (
          length-decode_scheme raw.secret_hash (split_once b':' raw.secret_hash) hash good,
          from_raw-HasHashes raws rest loaded,
        )
  ]
]

-- A token file that loads has hashes of 32 bytes only.
pub from_str-HasHashes :
    (toml : Text → Result (List RawToken) Text) (text : Text) (store : TokenStore)
    → from_str toml text ≡ ok store
    → HasHashes store
unfolding from_str
from_str-HasHashes toml text store h = elim (Result-cases (toml text)) [
  | inr (e, bad) ↦ cc (rw (bad, from_str) at h)
  | inl (raws, good) ↦ from_raw-HasHashes raws store (rw (good, from_str) at h)
]
