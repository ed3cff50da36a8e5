-- ===== src/Aborad/Tokens/Entries.antt =====
-- The entries of a token file of services/aborad/src/tokens.rs.
use abora_framework.Common.{
  ◌≡◌, refl, ap, sym, List, [], ◌∷◌, Text, Result, ok, Result-cases, inl, inr, subst, ok-injective,
  ◌↔◌,
}
use abora_framework.Aborad.Tokens.{
  RawToken, Entry, TokenStore, TokenError, decode_sha256_hex, from_raw, from_str,
}

-- The entries of a store are the tokens of a file, in order, each with its name, its permissions and
-- the hash that its text decodes to.
pub AreEntries : List RawToken → List Entry → Type 0
AreEntries [] [] = Unit
AreEntries [] (e ∷ es) = ⊥
AreEntries (raw ∷ raws) [] = ⊥
AreEntries (raw ∷ raws) (e ∷ es) =
    (e.token.name ≡ raw.raw_name)
    × (e.token.permissions ≡ raw.raw_permissions)
    × (decode_sha256_hex raw.secret_hash ≡ ok e.hash)
    × AreEntries raws es

entries_same :
    (xs ys : List Entry)
    → ◌≡◌ {A = Result TokenStore TokenError}
        (ok (record { entries = xs }))
        (ok (record { entries = ys }))
    → xs ≡ ys
entries_same xs ys h = ap (λ (s : TokenStore). s.entries) (ok-injective h)

from_raw→AreEntries :
    (raws : List RawToken) (es : List Entry)
    → from_raw raws ≡ ok (record { entries = es })
    → AreEntries raws es
unfolding from_raw AreEntries
from_raw→AreEntries [] es h = subst (AreEntries []) (entries_same [] es h) tt
from_raw→AreEntries (raw ∷ raws) es h = elim (Result-cases (decode_sha256_hex raw.secret_hash)) [
  | inr (e, bad) ↦ cc (rw (bad, from_raw) at h)
  | inl (hash, good) ↦ elim (Result-cases (from_raw raws)) [
    | inr (e, bad) ↦ cc (rw (good, bad, from_raw) at h)
    | inl (rest, loaded) ↦
        let first : Entry = record {
          token = record { name = raw.raw_name; permissions = raw.raw_permissions };
          hash = hash;
        } in
        subst (AreEntries (raw ∷ raws))
          (entries_same (first ∷ rest.entries) es (rw (good, loaded, from_raw) at h))
          (refl, refl, good, from_raw→AreEntries raws rest.entries loaded)
  ]
]

AreEntries→from_raw :
    (raws : List RawToken) (es : List Entry)
    → AreEntries raws es
    → from_raw raws ≡ ok (record { entries = es })
unfolding from_raw AreEntries
AreEntries→from_raw [] [] h = refl
AreEntries→from_raw [] (e ∷ es) h = absurd h
AreEntries→from_raw (raw ∷ raws) [] h = absurd h
AreEntries→from_raw (raw ∷ raws) (e ∷ es) (name, permissions, hash, rest) =
    rw (hash, AreEntries→from_raw raws es rest, sym name, sym permissions) refl

-- A text loads exactly as the store of what its TOML holds.
pub from_str_iff :
    (toml : Text → Result (List RawToken) Text) (text : Text) (store : TokenStore)
    → (from_str toml text ≡ ok store)
      ↔ ((raws : List RawToken) × (toml text ≡ ok raws) × AreEntries raws store.entries)
unfolding from_str
from_str_iff toml text store = (
  λ h. elim (Result-cases (toml text)) [
    | inr (e, bad) ↦ cc (rw (bad, from_str) at h)
    | inl (raws, is_toml) ↦
        (raws, is_toml, from_raw→AreEntries raws store.entries (rw (is_toml, from_str) at h))
  ],
  λ (raws, is_toml, holds). rw (is_toml, from_str) (AreEntries→from_raw raws store.entries holds),
)
