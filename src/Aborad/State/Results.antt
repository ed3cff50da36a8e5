-- ===== src/Aborad/State/Results.antt =====
-- A result is taken up once, and adds nothing to the list of the last check.
use abora_framework.Common.{
  ℕ, ◌≡◌, refl, inl, inr, true, false, not, ◌&&◌, List, ◌∷◌, subst, Option, none, some, Result, ok,
  err, Text, codes, text_eq, starts_with-append, All, All-filter, if_elim, Bool, take, Bool-cases,
  ap, sym, ◌∙◌,
}
use abora_framework.Update.{Channel, AvailableUpdate, UpdateHistoryEntry}
use abora_framework.Update.Apply.{
  ApplyResult, FileNode, ReadError, valid_request_id, read_regular_file,
}
use abora_framework.Update.Store.{
  StoreData, StoreError, UpdateStore, max_history, history, record_update,
}
use abora_framework.Update.Store.Newest.{history-record_update}
use abora_framework.Aborad.State.{
  UpdatesState, key_of, already, entry_of, recorded, lists, ingest_parsed, ingest_read,
  ingest_apply_result,
}

-- An entry for a result counts as taken up.
already-entry_of :
    (channel : Channel) (result : ApplyResult) (older : List UpdateHistoryEntry)
    → already (key_of result.id) (take max_history (entry_of channel result ∷ older)) ≡ true
unfolding already entry_of
already-entry_of channel result older = rw (starts_with-append (key_of result.id) _) refl

recorded-eq-true :
    (s s' : UpdatesState) (result : ApplyResult) (p : UpdateStore × Result (Unit {0}) StoreError)
    → recorded s result p ≡ (true, s')
    → s'.store ≡ p.0
unfolding recorded
recorded-eq-true s s' result (store, ok _) h = sym (ap (λ q. q.1.store) h)
recorded-eq-true s s' result (store, err e) h = cc

module _ (save : Text → StoreData → Result (Unit {0}) StoreError) (channel : Channel) where
  recorded-already :
      (s s' : UpdatesState) (result : ApplyResult)
      → recorded s result (record_update save (entry_of channel result) s.store) ≡ (true, s')
      → already (key_of result.id) (history s'.store) ≡ true
  unfolding recorded
  recorded-already s s' result h =
      elim (history-record_update save (entry_of channel result) s.store) [
        | inl (fine, newest) ↦
            let kept =
              recorded-eq-true s s' result (record_update save (entry_of channel result) s.store)
                h in
            subst (λ entries. already (key_of result.id) entries ≡ true)
              (sym (ap history kept ∙ newest)) (already-entry_of channel result (history s.store))
        | inr (e, failed) ↦ cc (rw (failed, recorded) at h)
      ]

  ingest_parsed-twice :
      (o : Option ApplyResult) (s s' : UpdatesState)
      → ingest_parsed save channel o s ≡ (true, s')
      → ingest_parsed save channel o s' ≡ (false, s')
  unfolding ingest_parsed
  ingest_parsed-twice none s s' h = cc
  ingest_parsed-twice (some result) s s' h =
      elim (Bool-cases
        (not (valid_request_id result.id) && not (text_eq result.id (codes "invalid")))) [
          | inl bad ↦ cc (rw (bad, ingest_parsed) at h)
          | inr good ↦ elim (Bool-cases (already (key_of result.id) (history s.store))) [
            | inl old ↦ cc (rw (good, old, ingest_parsed) at h)
            | inr new ↦
                let done = recorded-already s s' result (rw (good, new, ingest_parsed) at h) in
                rw (good, done) refl
          ]
        ]

  -- A result file that was taken up changes nothing when it is seen again.
  pub ingest_apply_result-twice :
      (from_slice : List ℕ → Option ApplyResult) (node : Result FileNode Text) (s s' : UpdatesState)
      → ingest_apply_result save channel from_slice node s ≡ (true, s')
      → ingest_apply_result save channel from_slice node s' ≡ (false, s')
  unfolding ingest_apply_result
  ingest_apply_result-twice from_slice node s s' h = go (read_regular_file node none) h
    where
      go :
          (r : Result (List ℕ) ReadError)
          → ingest_read save channel from_slice r s ≡ (true, s')
          → ingest_read save channel from_slice r s' ≡ (false, s')
      go (ok bytes) k =
          unfold ingest_read in
          ingest_parsed-twice (from_slice bytes) s s' (unfold ingest_read in k)
      go (err e) k = unfold ingest_read in cc

  recorded-All :
      (P : AvailableUpdate → Type 0) (s : UpdatesState) (result : ApplyResult)
      (x : UpdateStore × Result (Unit {0}) StoreError)
      → All P s.available
      → All P (recorded s result x).1.available
  unfolding recorded
  recorded-All P s result (store, err e) h = h
  recorded-All P s result (store, ok _) h =
      if_elim (All P) result.succeeded _ s.available
        (λ _. All-filter P (λ u. not (lists result.packages u)) s.available h) (λ _. h)

  -- Taking up a result adds nothing to the list of the last check.
  pub ingest_apply_result-All :
      (P : AvailableUpdate → Type 0) (from_slice : List ℕ → Option ApplyResult)
      (node : Result FileNode Text) (s : UpdatesState)
      → All P s.available
      → All P (ingest_apply_result save channel from_slice node s).1.available
  unfolding ingest_apply_result ingest_read ingest_parsed
  ingest_apply_result-All P from_slice node s h = go (read_regular_file node none)
    where
      parsed : (o : Option ApplyResult) → All P (ingest_parsed save channel o s).1.available
      parsed none = h
      parsed (some result) =
          if_elim (λ (x : Bool × UpdatesState). All P x.1.available)
            (not (valid_request_id result.id) && not (text_eq result.id (codes "invalid")))
            (false, s) _ (λ _. h)
            (λ _.
              if_elim (λ (x : Bool × UpdatesState). All P x.1.available)
                (already (key_of result.id) (history s.store)) (false, s) _ (λ _. h)
                (λ _. recorded-All P s result _ h))

      go :
          (r : Result (List ℕ) ReadError)
          → All P (ingest_read save channel from_slice r s).1.available
      go (err e) = h
      go (ok bytes) = parsed (from_slice bytes)
