-- ===== src/Services/Systemd/Details/Missing.antt =====
-- Which value of a property counts, and when a unit is reported missing.
use abora_framework.Common.{
  ◌≡◌, ◌≢◌, ◌↔◌, ◌⊎◌, refl, sym, ap, subst, ◌∙◌, arith, Bool, true, false, List, [], ◌∷◌, ◌++◌,
  Option, none, some, Result, ok, err, ◌>>=◌, Text, codes, text_eq, text_eq_iff, contains_text,
  Contains, contains_text_parts, contains_text_iff, split_once, lines, trim, Bool-cases,
  Option-cases, inl, inr, if◌then◌else◌,
}
use abora_framework.Services.{ServicesError, not_found, validate_unit_name}
use abora_framework.Services.Systemd.{
  Systemctl, shared_flags, not_executed, run_systemctl_raw, exit_error, get,
}
use abora_framework.Services.Systemd.Details.{
  ServiceDetail, show_args, show_line, show_lines, parse_show, or_empty, says_missing, detail_of,
  shown, unit_detail, detail,
}
use abora_framework.Services.Systemd.Details.Names.{IsUnitName, validate_unit_name_iff}

abbrev or_first : Option Text → Option Text → Option Text
or_first none o = o
or_first (some v) o = some v

abbrev value_of : Text → Option (Text × Text) → Option Text
value_of key none = none
value_of key (some (k, v)) = if text_eq k key then some v else none

-- The value of the first line `key=value`.
abbrev pub first_value : Text → List Text → Option Text
first_value key [] = none
first_value key (line ∷ ls) = or_first (value_of key (split_once b'=' line)) (first_value key ls)

or_first-none : (o : Option Text) → or_first o none ≡ o
or_first-none none = refl
or_first-none (some v) = refl

get-append :
    (key k v : Text) (props : List (Text × Text))
    → get key (props ++ (k, v) ∷ []) ≡ or_first (get key props) (value_of key (some (k, v)))
get-append key k v [] = refl
get-append key k v ((k', v') ∷ props) = elim (Bool-cases (text_eq k' key)) [
  | inl e ↦ rw e refl
  | inr e ↦ rw e (get-append key k v props)
]

get-show_line :
    (key : Text) (entry : Option (Text × Text)) (props : List (Text × Text))
    → get key (show_line entry props) ≡ or_first (get key props) (value_of key entry)
get-show_line key none props = sym (or_first-none (get key props))
get-show_line key (some (k, v)) props = elim (Option-cases (get k props)) [
  | inl e ↦ rw e (get-append key k v props)
  | inr (old, e) ↦ rw e (elim (Bool-cases (text_eq k key)) [
    | inl same ↦ rw (same, sym (ap (λ k'. get k' props) ((text_eq_iff k key).0 same)), e) refl
    | inr other ↦ rw other (sym (or_first-none (get key props)))
  ])
]

or_first_assoc : (a b c : Option Text) → or_first (or_first a b) c ≡ or_first a (or_first b c)
or_first_assoc none b c = refl
or_first_assoc (some v) b c = refl

get-show_lines :
    (key : Text) (ls : List Text) (props : List (Text × Text))
    → get key (show_lines ls props) ≡ or_first (get key props) (first_value key ls)
get-show_lines key [] props = sym (or_first-none (get key props))
get-show_lines key (line ∷ ls) props =
    get-show_lines key ls (show_line (split_once b'=' line) props)
    ∙ (ap (λ o. or_first o (first_value key ls)) (get-show_line key (split_once b'=' line) props)
        ∙ or_first_assoc (get key props) _ _)

-- The first value of a property counts.
pub get-parse_show : (key text : Text) → get key (parse_show text) ≡ first_value key (lines text)
unfolding parse_show
get-parse_show key text = get-show_lines key (lines text) []

-- What `systemctl show` answers for a unit that does not exist: it fails and says so, or it succeeds
-- and the load state says so.
abbrev pub IsMissing : Result (Bool × Text × Text) Text → Type 0
IsMissing r =
    ((out : Text) × (e : Text) × (r ≡ ok (false, out, e))
      × (Contains e (codes "No such unit") ⊎ Contains e (codes "not-found")))
    ⊎ ((out : Text) × (e : Text) × (r ≡ ok (true, out, e))
        × (first_value (codes "LoadState") (lines out) ≡ some (codes "not-found")))

says_missing_iff :
    (e : Text)
    → (says_missing e ≡ true) ↔ (Contains e (codes "No such unit") ⊎ Contains e (codes "not-found"))
says_missing_iff e = (there, back)
  where
    there :
        says_missing e ≡ true → Contains e (codes "No such unit") ⊎ Contains e (codes "not-found")
    there h = elim (Bool-cases (contains_text e (codes "No such unit"))) [
      | inl yes' ↦ inl (contains_text_parts e (codes "No such unit") yes')
      | inr no' ↦ inr (contains_text_parts e (codes "not-found") (rw no' at h))
    ]

    back :
        Contains e (codes "No such unit") ⊎ Contains e (codes "not-found") → says_missing e ≡ true
    back (inl h) = rw ((contains_text_iff e (codes "No such unit")).1 h) refl
    back (inr h) = rw ((contains_text_iff e (codes "not-found")).1 h) (ground arith)

is_not_found :
    (o : Option Text)
    → (text_eq (or_empty o) (codes "not-found") ≡ true) ↔ (o ≡ some (codes "not-found"))
is_not_found none = (λ h. cc, λ h. cc)
is_not_found (some v) = (
  λ h. ap some ((text_eq_iff v (codes "not-found")).0 h),
  λ h. (text_eq_iff v (codes "not-found")).1 (ground (arith, h)),
)

-- Where a branch is the only one that reports a missing unit.
if_not_found :
    (b : Bool) (name m : Text) (other : Result ServiceDetail ServicesError)
    → other ≢ err (not_found m)
    → ((if b then err (not_found name) else other) ≡ err (not_found m)) ↔ ((m ≡ name) × (b ≡ true))
if_not_found true name m other ne = (λ h. (ground (arith, h), refl), λ h. rw h.0 refl)
if_not_found false name m other ne = (λ h. absurd (ne h), λ h. cc)

abbrev output_of : Result (Bool × Text × Text) Text → Text × Text
output_of (ok (b, out, e)) = (out, e)
output_of (err e) = ([], [])

failed-IsMissing :
    (out e : Text)
    → (Contains e (codes "No such unit") ⊎ Contains e (codes "not-found"))
      ↔ IsMissing (ok (false, out, e))
failed-IsMissing out e = (λ h. inl (out, e, refl, h), back)
  where
    back :
        IsMissing (ok (false, out, e))
        → Contains e (codes "No such unit") ⊎ Contains e (codes "not-found")
    back (inl (out', e', same, h)) =
        subst (λ s. Contains s (codes "No such unit") ⊎ Contains s (codes "not-found"))
          (sym (ap (λ r. (output_of r).1) same)) h
    back (inr (out', e', same, h)) = cc

loaded-IsMissing :
    (out e : Text)
    → (first_value (codes "LoadState") (lines out) ≡ some (codes "not-found"))
      ↔ IsMissing (ok (true, out, e))
loaded-IsMissing out e = (λ h. inr (out, e, refl, h), back)
  where
    back :
        IsMissing (ok (true, out, e))
        → first_value (codes "LoadState") (lines out) ≡ some (codes "not-found")
    back (inl (out', e', same, h)) = cc
    back (inr (out', e', same, h)) =
        subst (λ s. first_value (codes "LoadState") (lines s) ≡ some (codes "not-found"))
          (sym (ap (λ r. (output_of r).0) same)) h

shown-not_found :
    (name m : Text) (r : Result (Bool × Text × Text) Text)
    → (not_executed r >>= shown name ≡ err (not_found m)) ↔ ((m ≡ name) × IsMissing r)
unfolding not_executed shown
shown-not_found name m (err e) =
    (λ h. cc, λ h. elim h.1 [ inl (out, e', same, c) ↦ cc | inr (out, e', same, c) ↦ cc ])
shown-not_found name m (ok (false, out, e)) =
    let (f, g) =
      if_not_found (says_missing e) name m (err (exit_error (show_args name) e)) (λ h. cc) in
    let (says, said) = says_missing_iff e in
    let (into, from) = failed-IsMissing out e in
    (λ h. let (same, b) = f h in (same, into (says b)), λ h. g (h.0, said (from h.1)))
shown-not_found name m (ok (true, out, e)) =
    let state = get (codes "LoadState") (parse_show out) in
    let (f, g) =
      if_not_found (text_eq (or_empty state) (codes "not-found")) name m
        (ok (detail_of name (parse_show out))) (λ h. cc) in
    let (says, said) = is_not_found state in
    let (into, from) = loaded-IsMissing out e in
    let value = get-parse_show (codes "LoadState") out in
    (
      λ h. let (same, b) = f h in (same, into (sym value ∙ says b)),
      λ h. g (h.0, said (value ∙ from h.1)),
    )

-- A unit is reported missing exactly when its name without the space around it is a unit name and
-- `systemctl show` of it either fails and its error output contains `No such unit` or `not-found`, or
-- succeeds and its first `LoadState` line says `not-found`. The report carries that name.
pub detail-not_found_iff :
    (systemctl : Systemctl) (name m : Text)
    → (detail systemctl name ≡ err (not_found m)) ↔ (
        IsUnitName (trim name)
        × (m ≡ trim name)
        × IsMissing (systemctl (shared_flags ++ show_args (trim name))))
unfolding detail unit_detail run_systemctl_raw
detail-not_found_iff systemctl name m = elim (Bool-cases (validate_unit_name (trim name))) [
  | inl e ↦
      let (f, g) =
        shown-not_found (trim name) m (systemctl (shared_flags ++ show_args (trim name))) in
      rw e (
        λ h. let (same, missing) = f h in ((validate_unit_name_iff (trim name)).0 e, same, missing),
        λ h. g (h.1, h.2),
      )
  | inr e ↦ rw e (λ h. cc, λ h. let valid = (validate_unit_name_iff (trim name)).1 h.0 in cc)
]
