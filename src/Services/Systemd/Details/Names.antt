-- ===== src/Services/Systemd/Details/Names.antt =====
-- The unit names that reach systemctl.
use abora_framework.Common.{
  ◌≡◌, ◌≢◌, ◌↔◌, refl, sym, subst, arith, ℕ, true, false, [], ◌∷◌, Text, codes, ends_with,
  ends_with_parts, ends_with-append, trim, any, All, ◌++◌, Bool-cases, inl, inr,
}
use abora_framework.Services.{is_separator, validate_unit_name}
use abora_framework.Services.Systemd.{Systemctl, shared_flags, run_systemctl_raw}
use abora_framework.Services.Systemd.Details.{show_args, unit_detail, detail}

-- A character that could begin another argument, another path or another line.
abbrev pub IsHarmless : ℕ → Type 0
IsHarmless c = (c ≢ b'/') × (c ≢ b'\\') × (c ≢ b' ') × (c ≢ b'\t') × (c ≢ b'\n') × (c ≢ b'\r')

-- Such a name is one argument of a command, no option of it, and no path.
pub record IsUnitName (name : Text) : Type 0 where
  pub first : ℕ
  pub others : Text
  pub is_name : name ≡ first ∷ others
  pub no_option : first ≢ b'-'
  pub harmless : All IsHarmless name
  pub stem : Text
  pub is_service : name ≡ stem ++ codes ".service"

is_separator-IsHarmless : (c : ℕ) → is_separator c ≡ false → IsHarmless c
is_separator-IsHarmless c h = (
  λ e. ground arith,
  λ e. ground arith,
  λ e. ground arith,
  λ e. ground arith,
  λ e. ground arith,
  λ e. ground arith,
)

IsHarmless-is_separator : (c : ℕ) → IsHarmless c → is_separator c ≡ false
IsHarmless-is_separator c h = ground arith

any-All : (s : Text) → any is_separator s ≡ false → All IsHarmless s
any-All [] h = tt
any-All (c ∷ s) h = elim (Bool-cases (is_separator c)) [
  | inl e ↦ cc (rw e at h)
  | inr e ↦ (is_separator-IsHarmless c e, any-All s (rw e at h))
]

All-any : (s : Text) → All IsHarmless s → any is_separator s ≡ false
All-any [] h = refl
All-any (c ∷ s) (hc, h) = rw (IsHarmless-is_separator c hc) (All-any s h)

-- A name is accepted exactly when it is one argument of a command, no option of it and no path, and
-- ends in `.service`.
pub validate_unit_name_iff : (name : Text) → (validate_unit_name name ≡ true) ↔ IsUnitName name
unfolding validate_unit_name
validate_unit_name_iff [] = (λ h. cc, λ h. absurd (ground (arith, h.is_name)))
validate_unit_name_iff (c ∷ s) = (there, back)
  where
    there : validate_unit_name (c ∷ s) ≡ true → IsUnitName (c ∷ s)
    there h =
        let (stem, same) = ends_with_parts (c ∷ s) (codes ".service") (ground (arith, h)) in
        record {
          first = c;
          others = s;
          is_name = refl;
          no_option = λ e. ground (arith, h);
          harmless = any-All (c ∷ s) (ground (arith, h));
          stem = stem;
          is_service = same;
        }

    back : IsUnitName (c ∷ s) → validate_unit_name (c ∷ s) ≡ true
    back h =
        let suffix =
          subst (λ n. ends_with n (codes ".service") ≡ true) (sym h.is_service)
            (ends_with-append h.stem (codes ".service")) in
        let apart = All-any (c ∷ s) h.harmless in
        let same : c ≡ h.first = ground (arith, h.is_name) in
        let dash : c ≢ b'-' = subst (λ d. d ≢ b'-') (sym same) h.no_option in
        rw (apart, suffix) (ground (arith, dash))

unit_detail-agree :
    (systemctl other : Systemctl) (name : Text)
    → systemctl (shared_flags ++ show_args name) ≡ other (shared_flags ++ show_args name)
    → unit_detail systemctl name ≡ unit_detail other name
unfolding unit_detail run_systemctl_raw
unit_detail-agree systemctl other name same = rw same refl

-- Whatever name is asked for, the answer depends on systemctl only at `show` with a name that is one
-- argument, no option and no path: two systemctls that agree there give the same answer.
pub detail-agree :
    (systemctl other : Systemctl) (name : Text)
    → ((unit : Text)
        → IsUnitName unit
        → systemctl (shared_flags ++ show_args unit) ≡ other (shared_flags ++ show_args unit))
    → detail systemctl name ≡ detail other name
unfolding detail
detail-agree systemctl other name same = elim (Bool-cases (validate_unit_name (trim name))) [
  | inr e ↦ rw e refl
  | inl e ↦ rw e (
      unit_detail-agree systemctl other (trim name)
        (same (trim name) ((validate_unit_name_iff (trim name)).0 e)))
]
