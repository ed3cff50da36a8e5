-- ===== src/Update/Store/Changes.antt =====
-- Changes of the update store of crates/abora-update/src/store.rs, and what opens.
use abora_framework.Common.{
  ◌<◌, ◌++◌, [], min, sym, ◌∙◌, drop, take, take-append-drop, ltb, if_elim, ℕ, ◌-◌, ◌≤◌, ◌≡◌, refl,
  arith, List, Option, none, some, Result, ok, err, Text, length, length-drop,
}
use abora_framework.Update.{UpdateHistoryEntry}
use abora_framework.Update.Store.{
  newer_schema, StoreData, StoreError, UpdateStore, ReadOutcome, found, not_found, failed, Opened,
  max_history, schema_version, trim_history, open', open_parsed, open_read, trim_opened, change,
  save_at, after_save,
}

-- The store's invariant: no more than 500 entries.
abbrev pub IsBounded : UpdateStore → Type 0
IsBounded s = length s.data'.history ≤ max_history

trim_history-bounded : (d : StoreData) → length (trim_history d).history ≤ max_history
unfolding trim_history
trim_history-bounded d = ground (arith, length-drop (length d.history - max_history) d.history)

-- What a change comes to: the edited copy was saved and is the new state, or nothing happened.
pub data Changed (save : Text → StoreData → Result (Unit {0}) StoreError)
    (edit : StoreData → StoreData) (s : UpdateStore)
    : UpdateStore × Result (Unit {0}) StoreError → Type 0 where
  made :
      (save_at save s.path (trim_history (edit s.data')) ≡ ok tt)
      → Changed save edit s (record s { data' = trim_history (edit s.data') }, ok tt)
  refused :
      (e : StoreError)
      → (save_at save s.path (trim_history (edit s.data')) ≡ err e)
      → Changed save edit s (s, err e)

-- Every change is one of the two cases.
pub change-Changed :
    (save : Text → StoreData → Result (Unit {0}) StoreError) (edit : StoreData → StoreData)
    (s : UpdateStore)
    → Changed save edit s (change save edit s)
unfolding change
change-Changed save edit s = go (save_at save s.path (trim_history (edit s.data'))) refl
  where
    go :
        (r : Result (Unit {0}) StoreError)
        → save_at save s.path (trim_history (edit s.data')) ≡ r
        → Changed save edit s (after_save save s (trim_history (edit s.data')) r)
    go (ok _) e = made e
    go (err w) e = refused w e

-- The newer data without the oldest entries of the history, where there are more than 500; nothing else
-- differs.
pub record IsCut (old new : StoreData) : Type 0 where
  pub same_schema : new.schema ≡ old.schema
  pub same_check : new.last_check ≡ old.last_check
  pub same_reboot : new.reboot ≡ old.reboot
  pub newest : (oldest : List UpdateHistoryEntry) × (old.history ≡ oldest ++ new.history)
  pub many : length new.history ≡ min 500 (length old.history)

trim_history-IsCut : (d : StoreData) → IsCut d (trim_history d)
unfolding trim_history
trim_history-IsCut d =
    let extra = length d.history - max_history in
    if_elim (IsCut d) (ltb max_history (length d.history))
      (record d { history = drop extra d.history }) d
      (λ e. record {
        same_schema = refl;
        same_check = refl;
        same_reboot = refl;
        newest = (take extra d.history, sym (take-append-drop extra d.history));
        many = length-drop extra d.history ∙ ground (arith, e);
      })
      (λ e. record {
        same_schema = refl;
        same_check = refl;
        same_reboot = refl;
        newest = ([], refl);
        many = ground (arith, e);
      })

-- The edited copy, cut, was saved to the store's file, if it has one, and is the new state; or the save
-- failed, its error is returned, and the state is the old one.
pub data IsAtomic (save : Text → StoreData → Result (Unit {0}) StoreError)
    (edit : StoreData → StoreData) (s : UpdateStore)
    : UpdateStore × Result (Unit {0}) StoreError → Type 0 where
  without_file :
      (next : StoreData)
      → IsCut (edit s.data') next
      → s.path ≡ none
      → IsAtomic save edit s (record { path = none; data' = next }, ok tt)
  with_file :
      (next : StoreData) (path : Text)
      → IsCut (edit s.data') next
      → s.path ≡ some path
      → save path next ≡ ok tt
      → IsAtomic save edit s (record { path = some path; data' = next }, ok tt)
  undone :
      (next : StoreData) (path : Text) (e : StoreError)
      → IsCut (edit s.data') next
      → s.path ≡ some path
      → save path next ≡ err e
      → IsAtomic save edit s (s, err e)

-- A change is all or nothing: either the edited copy, without the oldest entries where its history has
-- more than 500, is saved to the store's file, if it has one, and is the new state; or that save fails,
-- its error is returned, and the state is the old one.
pub change-IsAtomic :
    (save : Text → StoreData → Result (Unit {0}) StoreError) (edit : StoreData → StoreData)
    (s : UpdateStore)
    → IsAtomic save edit s (change save edit s)
unfolding change save_at
change-IsAtomic save edit s = at_path s.path s.data'
  where
    at_path :
        (path : Option Text) (d : StoreData)
        → IsAtomic save edit
            (record { path = path; data' = d })
            (change save edit (record { path = path; data' = d }))
    at_path none d = without_file (trim_history (edit d)) (trim_history-IsCut (edit d)) refl
    at_path (some path) d = go (save path (trim_history (edit d))) refl
      where
        go :
            (r : Result (Unit {0}) StoreError)
            → save path (trim_history (edit d)) ≡ r
            → IsAtomic save edit
                (record { path = some path; data' = d })
                (after_save save (record { path = some path; data' = d }) (trim_history (edit d)) r)
        go (ok _) e = with_file (trim_history (edit d)) path (trim_history-IsCut (edit d)) refl e
        go (err w) e = undone (trim_history (edit d)) path w (trim_history-IsCut (edit d)) refl e

-- Every change keeps the bound.
pub change-IsBounded :
    (save : Text → StoreData → Result (Unit {0}) StoreError) (edit : StoreData → StoreData)
    (s : UpdateStore)
    → IsBounded s
    → IsBounded (change save edit s).0
change-IsBounded save edit s h = go (change-Changed save edit s)
  where
    go : {r : UpdateStore × Result (Unit {0}) StoreError} → Changed save edit s r → IsBounded r.0
    go (made _) = trim_history-bounded (edit s.data')
    go (refused e _) = h

trim_history-schema : (d : StoreData) → (trim_history d).schema ≡ d.schema
unfolding trim_history
trim_history-schema d = ground arith

trim_opened-eq-ok :
    (path : Text) (r : Result (StoreData × Opened) StoreError) (s : UpdateStore) (o : Opened)
    → trim_opened path r ≡ ok (s, o)
    → (d : StoreData) × (r ≡ ok (d, o)) × (s ≡ record { path = some path; data' = trim_history d })
unfolding trim_opened
trim_opened-eq-ok path (ok (d, o')) s o h = (d, ground arith, ground arith)
trim_opened-eq-ok path (err e) s o h = cc

open_parsed-schema :
    (path : Text) (p : Option StoreData) (rename : Result (Unit {0}) Text) (d : StoreData)
    (o : Opened)
    → open_parsed path p rename ≡ ok (d, o)
    → d.schema ≤ schema_version
unfolding open_parsed
open_parsed-schema path (some d') rename d o h = ground arith
open_parsed-schema path none (ok _) d o h = ground arith
open_parsed-schema path none (err e) d o h = cc

open_read-schema :
    (from_slice : List ℕ → Option StoreData) (path : Text) (read : ReadOutcome)
    (rename : Result (Unit {0}) Text) (d : StoreData) (o : Opened)
    → open_read from_slice path read rename ≡ ok (d, o)
    → d.schema ≤ schema_version
unfolding open_read
open_read-schema from_slice path (found bytes) rename d o h =
    open_parsed-schema path (from_slice bytes) rename d o h
open_read-schema from_slice path not_found rename d o h = ground arith
open_read-schema from_slice path (failed e) rename d o h = cc

-- A store that opens is bounded, and holds data of a schema that this build understands.
pub open-IsBounded :
    (from_slice : List ℕ → Option StoreData) (path : Text) (read : ReadOutcome)
    (rename : Result (Unit {0}) Text) {s : UpdateStore} {o : Opened}
    → open' from_slice path read rename ≡ ok (s, o)
    → IsBounded s × (s.data'.schema ≤ schema_version) × (s.path ≡ some path)
unfolding open'
open-IsBounded from_slice path read rename {s} {o} h =
    let (d, parsed, same) = trim_opened-eq-ok path (open_read from_slice path read rename) s o h in
    rw same (
      trim_history-bounded d,
      rw (trim_history-schema d) (open_read-schema from_slice path read rename d o parsed),
      refl,
    )

-- A file of a newer schema does not open.
pub open_newer :
    (from_slice : List ℕ → Option StoreData) (path : Text) (bytes : List ℕ) (d : StoreData)
    (rename : Result (Unit {0}) Text)
    → from_slice bytes ≡ some d
    → schema_version < d.schema
    → open' from_slice path (found bytes) rename ≡ err (newer_schema path d.schema schema_version)
unfolding open' open_read open_parsed trim_opened
open_newer from_slice path bytes d rename parsed newer = rw parsed (ground arith)
