-- ===== src/Update/Host/Simulation.antt =====
-- What `parse_simulation` lets through, whatever apt prints.
use abora_framework.Common.{
  ◌≡◌, ◌≢◌, arith, true, List, [], ◌∷◌, Option, none, some, and_then-eq-some, Option-cases,
  Bool-cases, inl, inr, All, Text, codes, is_empty, split_once, strip_prefix, lines, if◌then◌else◌,
}
use mathlib.Core.List.{filter_map}
use abora_framework.Update.Host.{
  PackageUpgrade, valid_package_name, parse_from, cut_or_all, before_or_all, parse_target,
  parse_inst_line, parse_simulation,
}

-- What every parsed upgrade has: an acceptable name, and a version to go to.
pub record IsAcceptable (u : PackageUpgrade) : Type 0 where
  pub name_valid : valid_package_name u.name ≡ true
  pub to_given : u.to ≢ []

All-filter_map :
    {A B : Type 0} (P : B → Type 0) (f : A → Option B) (xs : List A)
    → ((x : A) (b : B) → f x ≡ some b → P b)
    → All P (filter_map f xs)
unfolding filter_map
All-filter_map P f [] h = tt
All-filter_map P f (x ∷ xs) h = elim (Option-cases (f x)) [
  | inl e ↦ rw (e, filter_map) (All-filter_map P f xs h)
  | inr (b, e) ↦ rw (e, filter_map) (h x b e, All-filter_map P f xs h)
]

given-IsAcceptable :
    (name : Text) (from : Option Text) (to source : Text) (u : PackageUpgrade)
    → valid_package_name name ≡ true
    → (if is_empty to
        then none
        else some (record { name = name; from = from; to = to; source = source }))
      ≡ some u
    → IsAcceptable u
given-IsAcceptable name from [] source u h e = cc
given-IsAcceptable name from (c ∷ to) source u h e = record {
  name_valid = ground arith;
  to_given = λ z. ground arith;
}

parse_target-IsAcceptable :
    (name : Text) (from : Option Text) (rest : Text) (u : PackageUpgrade)
    → valid_package_name name ≡ true
    → parse_target name from rest ≡ some u
    → IsAcceptable u
unfolding parse_target
parse_target-IsAcceptable name from rest u h e =
    let (inner, _, e1) = and_then-eq-some (strip_prefix (codes "(") rest) _ e in
    let (to, source) = cut_or_all b' ' (before_or_all b')' inner) in
    given-IsAcceptable name from to source u h e1

parse_inst_line-IsAcceptable :
    (line : Text) (u : PackageUpgrade) → parse_inst_line line ≡ some u → IsAcceptable u
unfolding parse_inst_line
parse_inst_line-IsAcceptable line u e =
    let (rest, _, e1) = and_then-eq-some (strip_prefix (codes "Inst ") line) _ e in
    let ((name, rest'), _, e2) = and_then-eq-some (split_once b' ' rest) _ e1 in
    elim (Bool-cases (valid_package_name name)) [
      | inr bad ↦ cc (rw bad at e2)
      | inl good ↦
          let ((from, target), _, e3) = and_then-eq-some (parse_from rest') _ (rw good at e2) in
          parse_target-IsAcceptable name from target u good e3
    ]

-- Whatever apt prints, every upgrade read from it has an acceptable name and a version.
pub parse_simulation-IsAcceptable : (output : Text) → All IsAcceptable (parse_simulation output)
unfolding parse_simulation
parse_simulation-IsAcceptable output =
    All-filter_map IsAcceptable parse_inst_line (lines output) parse_inst_line-IsAcceptable
