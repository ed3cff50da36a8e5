-- ===== src/Update/Store/Newest.antt =====
-- The history that the API presents, against an abstract log: the newest 500 of all entries.
use abora_framework.Common.{
  ℕ, zero, suc, ◌-◌, ◌≤◌, ◌≡◌, refl, ap, sym, ◌∙◌, arith, List, [], ◌∷◌, ◌++◌, Option, none, some,
  Result, ok, err, Text, length, drop, take, length-drop, length-append, take-append-drop, if_elim,
  ltb, ltb-false, ◌⊎◌, inl, inr, append_assoc,
}
use mathlib.Core.List.{reverse, reverse-append, reverse-cons}
use abora_framework.Update.{UpdateHistoryEntry}
use abora_framework.Update.Store.{
  StoreData, StoreError, UpdateStore, max_history, trim_history, record_update, history, save_at,
}
use abora_framework.Update.Store.Changes.{
  Changed, made, refused, change-Changed, change-IsBounded, IsBounded,
}

module _ {ℓ} {A : Type ℓ} where
  length-reverse : (xs : List A) → length (reverse xs) ≡ length xs
  length-reverse [] = refl
  length-reverse (x ∷ xs) =
      rw reverse-cons (omega (arith, length-append (reverse xs) (x ∷ []), length-reverse xs))

  take_all : (n : ℕ) (xs : List A) → length xs ≤ n → take n xs ≡ xs
  take_all zero [] h = refl
  take_all zero (x ∷ xs) h = absurd (omega arith)
  take_all (suc n) [] h = refl
  take_all (suc n) (x ∷ xs) h = ap (◌∷◌ x) (take_all n xs (omega arith))

  take-append : (n : ℕ) (xs ys : List A) → length xs ≡ n → take n (xs ++ ys) ≡ xs
  take-append zero [] ys h = refl
  take-append zero (x ∷ xs) ys h = absurd (omega arith)
  take-append (suc n) [] ys h = absurd (omega arith)
  take-append (suc n) (x ∷ xs) ys h = ap (◌∷◌ x) (take-append n xs ys (omega arith))

  -- The last `n` of a list, reversed, are the first `n` of its reverse.
  reverse-drop :
      (n : ℕ) (xs : List A)
      → n ≤ length xs
      → reverse (drop (length xs - n) xs) ≡ take n (reverse xs)
  reverse-drop n xs h =
      let m = length xs - n in
      let parts = ap reverse (take-append-drop m xs) in
      let glued = sym (reverse-append (take m xs) (drop m xs)) ∙ parts in
      sym (
        ap (take n) (sym glued)
        ∙ take-append n (reverse (drop m xs)) (reverse (take m xs))
            (length-reverse (drop m xs) ∙ omega (arith, length-drop m xs)))

  take-take : (n m : ℕ) (xs : List A) → n ≤ m → take n (take m xs) ≡ take n xs
  take-take zero m xs h = refl
  take-take (suc n) zero xs h = absurd (omega arith)
  take-take (suc n) (suc m) [] h = refl
  take-take (suc n) (suc m) (x ∷ xs) h = ap (◌∷◌ x) (take-take n m xs (omega arith))

  -- What lies past the cap does not matter under the same cap.
  take-append-take :
      (n m : ℕ) (xs ys : List A) → n ≤ m → take n (xs ++ take m ys) ≡ take n (xs ++ ys)
  take-append-take n m [] ys h = take-take n m ys h
  take-append-take zero m (x ∷ xs) ys h = refl
  take-append-take (suc n) m (x ∷ xs) ys h = ap (◌∷◌ x) (take-append-take n m xs ys (omega arith))

history-trim_history :
    (d : StoreData) → reverse (trim_history d).history ≡ take max_history (reverse d.history)
unfolding trim_history
history-trim_history d =
    if_elim (λ e. reverse e.history ≡ take max_history (reverse d.history))
      (ltb max_history (length d.history))
      (record d { history = drop (length d.history - max_history) d.history }) d
      (λ long. reverse-drop max_history d.history (ground arith))
      (λ short. sym (
        take_all max_history (reverse d.history)
          (omega (arith, length-reverse d.history, ltb-false _ _ short))))

abbrev push_entry : UpdateHistoryEntry → StoreData → StoreData
push_entry entry d = record d { history = d.history ++ entry ∷ [] }

history-push_entry :
    (entry : UpdateHistoryEntry) (d : StoreData)
    → reverse (trim_history (push_entry entry d)).history
      ≡ take max_history (entry ∷ reverse d.history)
history-push_entry entry d =
    history-trim_history (push_entry entry d)
    ∙ ap (take max_history) (reverse-append d.history (entry ∷ []))

module _ (save : Text → StoreData → Result (Unit {0}) StoreError) where
  -- A recorded update appears first in the history, and pushes out the oldest of 500; if the save
  -- fails, the history is unchanged.
  pub history-record_update :
      (entry : UpdateHistoryEntry) (s : UpdateStore)
      → (((record_update save entry s).1 ≡ ok tt)
          × (history (record_update save entry s).0 ≡ take max_history (entry ∷ history s)))
        ⊎ ((e : StoreError) × (record_update save entry s ≡ (s, err e)))
  unfolding record_update history
  history-record_update entry s = go (change-Changed save (push_entry entry) s)
    where
      go :
          {r : UpdateStore × Result (Unit {0}) StoreError}
          → Changed save (push_entry entry) s r
          → ((r.1 ≡ ok tt) × (history r.0 ≡ take max_history (entry ∷ history s)))
            ⊎ ((e : StoreError) × (r ≡ (s, err e)))
      go (made _) = inl (refl, history-push_entry entry s.data')
      go (refused e _) = inr (e, refl)

  save_at-eq-ok :
      (o : Option Text) (d : StoreData)
      → ((path : Text) (d : StoreData) → save path d ≡ ok tt)
      → save_at save o d ≡ ok tt
  unfolding save_at
  save_at-eq-ok none d saves = refl
  save_at-eq-ok (some path) d saves = saves path d

  saved :
      (entry : UpdateHistoryEntry) (s : UpdateStore)
      → ((path : Text) (d : StoreData) → save path d ≡ ok tt)
      → history (record_update save entry s).0 ≡ take max_history (entry ∷ history s)
  unfolding record_update history
  saved entry s saves = go (change-Changed save (push_entry entry) s)
    where
      go :
          {r : UpdateStore × Result (Unit {0}) StoreError}
          → Changed save (push_entry entry) s r
          → history r.0 ≡ take max_history (entry ∷ history s)
      go (made _) = history-push_entry entry s.data'
      go (refused e p) =
          cc (p, save_at-eq-ok s.path (trim_history (push_entry entry s.data')) saves)

  record_update-IsBounded :
      (entry : UpdateHistoryEntry) (s : UpdateStore)
      → IsBounded s
      → IsBounded (record_update save entry s).0
  unfolding record_update
  record_update-IsBounded entry s h = change-IsBounded save (push_entry entry) s h

  history-bounded : (s : UpdateStore) → IsBounded s → length (history s) ≤ max_history
  unfolding history
  history-bounded s h = omega (arith, length-reverse s.data'.history)

  -- the updates recorded one after another, oldest first
  pub record_all : List UpdateHistoryEntry → UpdateStore → UpdateStore
  record_all [] s = s
  record_all (e ∷ es) s = record_all es (record_update save e s).0

  -- While no save fails, the history refines an unbounded log: it is the newest 500 of everything
  -- recorded since, before what it held.
  pub history-record_all :
      (es : List UpdateHistoryEntry) (s : UpdateStore)
      → ((path : Text) (d : StoreData) → save path d ≡ ok tt)
      → IsBounded s
      → history (record_all es s) ≡ take max_history (reverse es ++ history s)
  unfolding record_all
  history-record_all [] s saves h = sym (take_all max_history (history s) (history-bounded s h))
  history-record_all (e ∷ es) s saves h =
      history-record_all es (record_update save e s).0 saves (record_update-IsBounded e s h)
      ∙ ap (λ h'. take max_history (reverse es ++ h')) (saved e s saves)
      ∙ take-append-take max_history max_history (reverse es) (e ∷ history s) (omega arith)
      ∙ ap (take max_history) (
          sym (
            ap (λ l. l ++ history s) (reverse-cons e es)
            ∙ append_assoc (reverse es) (e ∷ []) (history s)))
