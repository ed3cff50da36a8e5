-- ===== src/Services/Systemd/Listing.antt =====
-- The service list of crates/abora-services/src/linux.rs: its order, its names and its hints.
use abora_framework.Common.{
  ◌≡◌, refl, Bool, true, List, [], ◌∷◌, map, Option, none, some, Text, codes, if◌then◌else◌, ◌||◌,
  is_empty, trim, split_whitespace, starts_with, text_leb, text_eq, ap, subst, ◌∙◌, text_leb_total,
  text_leb_trans, ends_with, lines, All, All-mono, Shuffled, nil, keep, swap, then_, Shuffled-self,
  All-Shuffled, Bool-cases, inl, inr, arith, Option-cases,
}
use abora_framework.Services.{ServiceStatus}
use abora_framework.Services.Systemd.{
  RawUnit, inserted, get, flatten, file_line, unit_of, unit_line, filter_map, parse_list_units,
  parse_list_unit_files, status_of, insert_by_name, sort_by_name, listed,
}

-- Each name before every later one, or equal to it.
abbrev pub IsSorted : List ServiceStatus → Type 0
IsSorted [] = Unit
IsSorted (s ∷ ss) = All (λ (t : ServiceStatus). text_leb s.name t.name ≡ true) ss × IsSorted ss

insert_by_name-Shuffled :
    (s : ServiceStatus) (ss : List ServiceStatus) → Shuffled (s ∷ ss) (insert_by_name s ss)
insert_by_name-Shuffled s [] = Shuffled-self (s ∷ [])
insert_by_name-Shuffled s (t ∷ ts) = elim (Bool-cases (text_leb s.name t.name)) [
  | inl e ↦ rw e (Shuffled-self (s ∷ t ∷ ts))
  | inr e ↦ rw e (then_ (swap s t ts) (keep t (insert_by_name-Shuffled s ts)))
]

sort_by_name-Shuffled : (ss : List ServiceStatus) → Shuffled ss (sort_by_name ss)
unfolding sort_by_name
sort_by_name-Shuffled [] = nil
sort_by_name-Shuffled (s ∷ ss) =
    then_ (keep s (sort_by_name-Shuffled ss)) (insert_by_name-Shuffled s (sort_by_name ss))

insert_by_name-IsSorted :
    (s : ServiceStatus) (ss : List ServiceStatus) → IsSorted ss → IsSorted (insert_by_name s ss)
insert_by_name-IsSorted s [] h = (tt, tt)
insert_by_name-IsSorted s (t ∷ ts) (ht, h) = elim (Bool-cases (text_leb s.name t.name)) [
  | inl e ↦ rw e (
    (e, All-mono _ _ ts (λ (u : ServiceStatus). text_leb_trans s.name t.name u.name e) ht),
    (ht, h),
  )
  | inr e ↦ rw e (
    All-Shuffled (λ (u : ServiceStatus). text_leb t.name u.name ≡ true)
        (insert_by_name-Shuffled s ts) (text_leb_total s.name t.name e, ht),
    insert_by_name-IsSorted s ts h,
  )
]

sort_by_name-IsSorted : (ss : List ServiceStatus) → IsSorted (sort_by_name ss)
unfolding sort_by_name
sort_by_name-IsSorted [] = tt
sort_by_name-IsSorted (s ∷ ss) =
    insert_by_name-IsSorted s (sort_by_name ss) (sort_by_name-IsSorted ss)

-- The value of the last entry with this key.
abbrev pub last_entry : Text → List (Text × Option Bool) → Option (Option Bool)
last_entry key [] = none
last_entry key ((k, a) ∷ entries) = elim (last_entry key entries) [
  | some b ↦ some b
  | none ↦ if text_eq k key then some a else none
]

abbrev or_else : Option (Option Bool) → Option (Option Bool) → Option (Option Bool)
or_else none o = o
or_else (some b) o = some b

or_else-none : (o : Option (Option Bool)) → or_else o none ≡ o
or_else-none none = refl
or_else-none (some b) = refl

ap2 : {A B C : Type 0} (f : A → B → C) {a a' : A} {b b' : B} → a ≡ a' → b ≡ b' → f a b ≡ f a' b'
ap2 f {a = a} {b' = b'} p q = ap (f a) q ∙ ap (λ x. f x b') p

get-inserted :
    (key : Text) (entries before : List (Text × Option Bool))
    → get key (inserted entries before) ≡ or_else (last_entry key entries) (get key before)
get-inserted key [] before = refl
get-inserted key ((k, a) ∷ entries) before =
    get-inserted key entries ((k, a) ∷ before) ∙ elim (Option-cases (last_entry key entries)) [
      | inl e ↦ rw e (ground arith)
      | inr (b, e) ↦ rw e refl
    ]

-- A unit of the first output, with the hint that the last line of the second output with its name
-- gives.
abbrev pub hinted : Text → RawUnit → ServiceStatus
hinted files u = record {
  name = u.name;
  state = u.state;
  enabled = flatten (last_entry u.name (filter_map file_line (lines files)));
  description = u.description;
}

status_of-hinted :
    (files : Text) (us : List RawUnit)
    → map (status_of (parse_list_unit_files files)) us ≡ map (hinted files) us
unfolding status_of parse_list_unit_files
status_of-hinted files [] = refl
status_of-hinted files (u ∷ us) =
    ap2
      (λ enabled rest.
        record {
          name = u.name;
          state = u.state;
          enabled = flatten enabled;
          description = u.description;
        }
        ∷ rest)
      (get-inserted u.name (filter_map file_line (lines files)) [] ∙ or_else-none _)
      (status_of-hinted files us)

abbrev pub IsService : ServiceStatus → Type 0
IsService s = ends_with s.name (codes ".service") ≡ true

IsServiceUnit : RawUnit → Type 0
IsServiceUnit u = ends_with u.name (codes ".service") ≡ true

unit_of-IsServiceUnit : (row : List Text) (u : RawUnit) → unit_of row ≡ some u → IsServiceUnit u
unfolding IsServiceUnit
unit_of-IsServiceUnit (name ∷ load ∷ active ∷ sub ∷ rest) u h = ground (arith, h)
unit_of-IsServiceUnit [] u h = cc
unit_of-IsServiceUnit (name ∷ []) u h = cc
unit_of-IsServiceUnit (name ∷ load ∷ []) u h = cc
unit_of-IsServiceUnit (name ∷ load ∷ active ∷ []) u h = cc

unit_line-IsServiceUnit : (line : Text) (u : RawUnit) → unit_line line ≡ some u → IsServiceUnit u
unfolding unit_line
unit_line-IsServiceUnit line u h =
    elim (Bool-cases (is_empty (trim line) || starts_with (trim line) (codes "UNIT "))) [
      | inl e ↦ cc (rw e at h)
      | inr e ↦ unit_of-IsServiceUnit (split_whitespace (trim line)) u (rw e at h)
    ]

-- What holds of each value that is found holds of all of them.
filter_map-All :
    {A B : Type 0} (P : B → Type 0) (f : A → Option B) (xs : List A)
    → ((x : A) (y : B) → f x ≡ some y → P y)
    → All P (filter_map f xs)
filter_map-All P f [] h = tt
filter_map-All P f (x ∷ xs) h = elim (Option-cases (f x)) [
  | inl e ↦ rw e (filter_map-All P f xs h)
  | inr (y, e) ↦ rw e (h x y e, filter_map-All P f xs h)
]

names-IsService :
    (files : Text) (us : List RawUnit)
    → All IsServiceUnit us
    → All IsService (map (hinted files) us)
unfolding IsServiceUnit
names-IsService files [] h = tt
names-IsService files (u ∷ us) (hu, h) = (hu, names-IsService files us h)

-- The service list has the units of the first output, each once, in the order of their names; each
-- with the hint that the last line of the second output with its name gives, where one does. Every
-- name ends in `.service`.
pub listed-IsSorted :
    (units files : Text)
    → IsSorted (listed units files)
      × Shuffled (map (hinted files) (parse_list_units units)) (listed units files)
      × All IsService (listed units files)
unfolding listed parse_list_units
listed-IsSorted units files =
    let found = parse_list_units units in
    let listing =
      subst (λ ss. Shuffled ss (listed units files)) (status_of-hinted files found)
        (sort_by_name-Shuffled (map (status_of (parse_list_unit_files files)) found)) in
    (
      sort_by_name-IsSorted _,
      listing,
      All-Shuffled IsService listing (
          names-IsService files found
            (filter_map-All IsServiceUnit unit_line (lines units) unit_line-IsServiceUnit)),
    )
