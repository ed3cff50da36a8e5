-- ===== src/Aborad/Tokens.antt =====
-- services/aborad/src/tokens.rs: the bearer-token store. SHA-256 and the TOML parser are parameters;
-- a hash is the list of its bytes.
pub mod Entries
pub mod Hex
pub mod Compare
use Prim.Native.Nat.{bit_or, bit_xor}
use abora_framework.Common.{
  ℕ, zero, suc, ◌+◌, ◌-◌, ◌*◌, ◌/◌, ◌%◌, Bool, true, false, not, ◌&&◌, ◌||◌, List, [], ◌∷◌, ◌++◌,
  Option, none, some, Result, ok, err, Text, codes, text_eq, len, any, find, starts_with,
  split_once, is_ascii_digit, leb, ltb, ◌==◌, if◌then◌else◌,
}

pub record StoredToken : Type 0 where
  pub name : Option Text
  pub permissions : List Text

-- `read_all` covers the `read:` permissions only.
unfoldable pub grants : StoredToken → Text → Bool
grants token permission_id =
    any
      (λ p.
        text_eq p permission_id
        || (text_eq p (codes "read_all") && starts_with permission_id (codes "read:")))
      token.permissions

pub record Entry : Type 0 where
  pub token : StoredToken
  pub hash : List ℕ

pub record TokenStore : Type 0 where
  pub entries : List Entry

-- `for (x, y) in a.iter().zip(b.iter()) { diff |= x ^ y; }`
fold_diff : ℕ → List ℕ → List ℕ → ℕ
fold_diff diff [] b = diff
fold_diff diff (x ∷ a) [] = diff
fold_diff diff (x ∷ a) (y ∷ b) = fold_diff (bit_or diff (bit_xor x y)) a b

unfoldable pub ct_eq : List ℕ → List ℕ → Bool
unfolding fold_diff
ct_eq a b = fold_diff 0 a b == 0

abbrev token_of : Option Entry → Option StoredToken
token_of none = none
token_of (some e) = some e.token

-- `find`, with SHA-256
unfoldable pub find_token : (Text → List ℕ) → TokenStore → Text → Option StoredToken
find_token sha256 store bearer =
    token_of (find (λ (e : Entry). ct_eq e.hash (sha256 bearer)) store.entries)

pub data HashError : Type 0 where
  bad_shape bad_scheme : Text → HashError
  bad_length : ℕ → HashError
  bad_pair : Text → HashError
  slice_panic : HashError

-- a hexadecimal digit, as `char::to_digit(16)`
abbrev pub hex_digit : ℕ → Option ℕ
hex_digit c =
    if is_ascii_digit c
    then some (c - b'0')
    else if leb b'a' c && leb c b'f'
    then some (c - b'a' + 10)
    else if leb b'A' c && leb c b'F'
    then some (c - b'A' + 10)
    else none

abbrev pub both_digits : Option ℕ → Option ℕ → Option ℕ
both_digits none b = none
both_digits (some a) none = none
both_digits (some a) (some b) = some (a * 16 + b)

-- `u8::from_str_radix(pair, 16)` on two characters, where a leading `+` is a sign
abbrev pub pair_value : ℕ → ℕ → Option ℕ
pair_value a b = if a == b'+' then hex_digit b else both_digits (hex_digit a) (hex_digit b)

-- The loop: bytes `2 * i .. 2 * i + 2` of the text. A slice that ends inside a character panics.
decode_pairs : Text → Result (List ℕ) HashError
decode_pairs [] = ok []
decode_pairs (c ∷ []) =
    if leb 0x80 c && ltb c 0x800 then err (bad_pair (c ∷ [])) else err slice_panic
decode_pairs (c ∷ d ∷ s) =
    let rest = decode_pairs s in
    if leb 0x80 c
    then (if ltb c 0x800 then err (bad_pair (c ∷ [])) else err slice_panic)
    else if leb 0x80 d
    then err slice_panic
    else elim (pair_value c d) [
      | none ↦ err (bad_pair (c ∷ d ∷ []))
      | some byte ↦ elim rest [ err e ↦ err e | ok bytes ↦ ok (byte ∷ bytes) ]
    ]

-- after `split_once(':')`
decode_scheme : Text → Option (Text × Text) → Result (List ℕ) HashError
unfolding decode_pairs
decode_scheme prefixed none = err (bad_shape prefixed)
decode_scheme prefixed (some (scheme, hex)) =
    if not (text_eq scheme (codes "sha256"))
    then err (bad_scheme scheme)
    else if not (len hex == 64)
    then err (bad_length (len hex))
    else decode_pairs hex

unfoldable pub decode_sha256_hex : Text → Result (List ℕ) HashError
unfolding decode_scheme
decode_sha256_hex prefixed = decode_scheme prefixed (split_once b':' prefixed)

pub record RawToken : Type 0 where
  pub raw_name : Option Text
  pub raw_permissions : List Text
  pub secret_hash : Text

pub data TokenError : Type 0 where
  invalid_toml : Text → TokenError
  bad_hash : HashError → TokenError

abbrev add_entry :
    RawToken
    → Result (List ℕ) HashError
    → Result TokenStore TokenError
    → Result TokenStore TokenError
add_entry raw (err e) rest = err (bad_hash e)
add_entry raw (ok hash) (err e) = err e
add_entry raw (ok hash) (ok store) = ok (record {
  entries =
      record {
        token = record { name = raw.raw_name; permissions = raw.raw_permissions };
        hash = hash;
      }
      ∷ store.entries;
})

-- the loop over the entries, which ends at the first bad hash
pub from_raw : List RawToken → Result TokenStore TokenError
from_raw [] = ok (record { entries = [] })
from_raw (raw ∷ raws) = add_entry raw (decode_sha256_hex raw.secret_hash) (from_raw raws)

-- `from_str`, with the TOML parser
unfoldable pub from_str : (Text → Result (List RawToken) Text) → Text → Result TokenStore TokenError
unfolding from_raw
from_str toml text = elim (toml text) [ err e ↦ err (invalid_toml e) | ok raws ↦ from_raw raws ]

-- `HEX[d]`
abbrev pub hex_char : ℕ → ℕ
hex_char d = if ltb d 10 then b'0' + d else b'a' + (d - 10)

-- `hex_encode` of the client, and `hex_lower` of the server
unfoldable pub hex_encode : List ℕ → Text
hex_encode [] = []
hex_encode (byte ∷ bytes) = hex_char (byte / 16) ∷ hex_char (byte % 16) ∷ hex_encode bytes

-- the client's `sha256_hex`, with SHA-256
unfoldable pub sha256_hex : (Text → List ℕ) → Text → Text
sha256_hex sha256 secret = codes "sha256:" ++ hex_encode (sha256 secret)
