-- ===== src/Aborad/Reload/TokenFile.antt =====
-- What it is to load a token file, in terms of its text (services/aborad/src/tokens.rs).
use abora_framework.Common.{◌≡◌, ◌↔◌, refl, ap, List, Result, ok, err, Text, ok-injective}
use abora_framework.Aborad.Tokens.{RawToken, TokenStore, TokenError, from_str}
use abora_framework.Aborad.Tokens.Entries.{AreEntries, from_str_iff}
use abora_framework.Aborad.Reload.{Outside, store_or_error, entries_or_error, load_tokens}

-- A store is what the token file at a path holds: the file can be read, its text is TOML, and every
-- hash in it decodes.
pub record IsLoaded (o : Outside) (path : Text) (store : TokenStore) : Type 0 where
  pub text : Text
  pub readable : o.read_to_string path ≡ ok text
  pub raws : List RawToken
  pub is_toml : o.tokens_toml text ≡ ok raws
  pub holds : AreEntries raws store.entries

pub entries_or_error-ok :
    (path : Text) (r : Result TokenStore TokenError) (store : TokenStore)
    → entries_or_error path r ≡ ok store
    → r ≡ ok store
entries_or_error-ok path (ok s) store h = ap ok (ok-injective h)
entries_or_error-ok path (err e) store h = cc

-- `TokenStore::load` succeeds exactly with what the token file holds.
pub load_tokens_iff :
    (o : Outside) (path : Text) (store : TokenStore)
    → (load_tokens o path ≡ ok store) ↔ IsLoaded o path store
unfolding load_tokens
load_tokens_iff o path store = (
  λ h. go (o.read_to_string path) refl h,
  λ l. rw l.readable (
      ap (entries_or_error path)
        ((from_str_iff o.tokens_toml l.text store).1 (l.raws, l.is_toml, l.holds))),
)
  where
    go :
        (r : Result Text Text)
        → o.read_to_string path ≡ r
        → store_or_error o.tokens_toml path r ≡ ok store
        → IsLoaded o path store
    go (err e) readable h = cc
    go (ok text) readable h =
        let parsed = entries_or_error-ok path (from_str o.tokens_toml text) store h in
        let (raws, is_toml, holds) = (from_str_iff o.tokens_toml text store).0 parsed in
        record { text = text; readable = readable; raws = raws; is_toml = is_toml; holds = holds }
