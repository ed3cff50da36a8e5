-- ===== src/Update/Apply/Requests.antt =====
-- Which requests are valid, which files are read, and what reaches the `apt-get` command line.
use abora_framework.Common.{
  Some, ◌++◌, text_eq, ℕ, ◌≡◌, ◌≢◌, ◌↔◌, ◌≤◌, refl, arith, true, false, not, List, [], ◌∷◌, none,
  some, Result, ok, err, Text, codes, length, is_empty, find, All, All-mono, starts_with,
  Bool-cases, Option-cases, inl, inr, ◌⊎◌, take, drop,
}
use abora_framework.Update.Host.{valid_package_name}
use abora_framework.Update.Apply.{
  ApplyRequest, FileNode, max_packages, max_file_bytes, fixed_args, valid_request_id,
  validate_request, install_args, read_content, read_regular_file,
}

-- A request that may be acted on.
pub record IsValid (r : ApplyRequest) : Type 0 where
  pub id_valid : valid_request_id r.id ≡ true
  pub some_package : r.packages ≢ []
  pub few_packages : length r.packages ≤ max_packages
  pub names_valid : All (λ p. valid_package_name p ≡ true) r.packages

find-none→All :
    (ps : List Text)
    → find (λ p. not (valid_package_name p)) ps ≡ none
    → All (λ p. valid_package_name p ≡ true) ps
find-none→All [] h = tt
find-none→All (p ∷ ps) h = elim (Bool-cases (valid_package_name p)) [
  | inl e ↦ (e, find-none→All ps (rw e at h))
  | inr e ↦ cc (rw e at h)
]

All→find-none :
    (ps : List Text)
    → All (λ p. valid_package_name p ≡ true) ps
    → find (λ p. not (valid_package_name p)) ps ≡ none
All→find-none [] h = refl
All→find-none (p ∷ ps) (e, h) = rw e (All→find-none ps h)

accepted_id : (r : ApplyRequest) → validate_request r ≡ ok tt → valid_request_id r.id ≡ true
unfolding validate_request
accepted_id r h = elim (Bool-cases (valid_request_id r.id)) [
  | inl e ↦ e
  | inr e ↦ cc (rw (e, validate_request) at h)
]

nonempty : (ps : List Text) → ps ≢ [] → is_empty ps ≡ false
nonempty [] h = absurd (h refl)
nonempty (p ∷ ps) h = refl

-- `validate_request` accepts exactly the valid requests.
pub validate_request_iff : (r : ApplyRequest) → (validate_request r ≡ ok tt) ↔ IsValid r
unfolding validate_request
validate_request_iff r = (
  λ h.
      let id = accepted_id r h in
      let rest = rw id at h in
      record {
        id_valid = id;
        some_package = λ e. cc (rw e at rest);
        few_packages = ground arith;
        names_valid = find-none→All r.packages (ground arith);
      },
  λ v.
      rw (v.id_valid, nonempty r.packages v.some_package, All→find-none r.packages v.names_valid)
        (ground arith),
)

not_option : (p : Text) → valid_package_name p ≡ true → starts_with p (codes "-") ≡ false
unfolding valid_package_name
not_option p h = ground arith

-- The words of a command line: options, of which none is `--`, then `--`, then the packages, of which
-- none starts with a dash. Among the options are the command and the options that apt-get needs to
-- ask nothing, to remove nothing, to upgrade only, and for the two policies on configuration files.
pub record IsUpgradeLine (packages words : List Text) : Type 0 where
  pub options : List Text
  pub split : words ≡ options ++ (codes "--" ∷ packages)
  pub options_lack : All (λ w. text_eq w (codes "--") ≡ false) options
  pub asks_nothing : Some (λ w. w ≡ codes "-y") options
  pub removes_nothing : Some (λ w. w ≡ codes "--no-remove") options
  pub installs : Some (λ w. w ≡ codes "install") options
  pub only_upgrades : Some (λ w. w ≡ codes "--only-upgrade") options
  pub keeps_old :
      (before after : List Text) × (options
        ≡ before ++ (codes "-o" ∷ codes "Dpkg::Options::=--force-confold" ∷ after))
  pub takes_default :
      (before after : List Text) × (options
        ≡ before ++ (codes "-o" ∷ codes "Dpkg::Options::=--force-confdef" ∷ after))
  pub packages_plain : All (λ p. starts_with p (codes "-") ≡ false) packages

-- For a valid request, the command line has `-y`, `--no-remove`, `install`, `--only-upgrade` and the
-- `-o` options for confold and confdef, then its first `--`, then the packages of the request, of which
-- none starts with a dash.
pub install_args_safe :
    (r : ApplyRequest)
    → validate_request r ≡ ok tt
    → IsUpgradeLine r.packages (install_args r.packages)
unfolding install_args
install_args_safe r h = record {
  options = take 8 fixed_args;
  split = refl;
  options_lack = (refl, (refl, (refl, (refl, (refl, (refl, (refl, (refl, tt))))))));
  asks_nothing = inl refl;
  removes_nothing = inr (inl refl);
  installs = inr (inr (inr (inr (inr (inr (inl refl))))));
  only_upgrades = inr (inr (inr (inr (inr (inr (inr (inl refl)))))));
  keeps_old = (take 2 fixed_args, take 4 (drop 4 fixed_args), refl);
  takes_default = (take 4 fixed_args, take 2 (drop 6 fixed_args), refl);
  packages_plain = All-mono _ _ r.packages not_option ((validate_request_iff r).0 h).names_valid;
}

read_content-eq-ok :
    (c : Result (List ℕ) Text) {bytes : List ℕ} → read_content c ≡ ok bytes → c ≡ ok bytes
read_content-eq-ok (ok bs) h = ground arith
read_content-eq-ok (err e) h = cc

-- A file is read exactly when it is regular, small, and not older than the limit; then its content
-- is what is read.
pub read_regular_file_iff :
    (node : FileNode) (max_age : ℕ) (bytes : List ℕ)
    → (read_regular_file (ok node) (some max_age) ≡ ok bytes) ↔ (
        (node.is_file ≡ true)
        × (node.size ≤ max_file_bytes)
        × ((node.age ≡ none) ⊎ ((age : ℕ) × (node.age ≡ some age) × (age ≤ max_age)))
        × (node.content ≡ ok bytes))
unfolding read_regular_file
read_regular_file_iff node max_age bytes = (
  λ h. (
    ground arith,
    ground arith,
    elim (Option-cases node.age) [ inl e ↦ inl e | inr (age, e) ↦ inr (age, e, ground arith) ],
    read_content-eq-ok node.content (ground arith),
  ),
  λ (regular, small, young, content). elim young [
    | inl e ↦ ground arith
    | inr (age, e, le) ↦ ground arith
  ],
)
