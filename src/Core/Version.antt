-- ===== src/Core/Version.antt =====
-- `Version` of crates/abora-core/src/lib.rs: a `major.minor.patch` version with opaque
-- `-prerelease` and `+build` suffixes. Error messages are values of `VersionError`.
pub mod RoundTrip
mod Tests
use abora_framework.Common.{
  ℕ, ◌≡◌, Bool, not, ◌||◌, ◌&&◌, List, [], ◌∷◌, ◌++◌, Option, none, some, Result, ok, err, ◌>>=◌,
  Text, codes, is_ascii_digit, is_empty, all, split_once, split, if◌then◌else◌,
}
use abora_framework.Common.Decimal.{parse_uint, show, u64_limit}

pub record Version : Type 0 where
  pub major : ℕ
  pub minor : ℕ
  pub patch : ℕ
  pub prerelease : Option Text
  pub build : Option Text

-- The two messages of `parse`, with the text that they quote.
pub data VersionError : Type 0 where
  wrong_shape : Text → VersionError
  invalid_component : Text → VersionError

abbrev pub new : ℕ → ℕ → ℕ → Version
new major minor patch = record {
  major = major;
  minor = minor;
  patch = patch;
  prerelease = none;
  build = none;
}

-- `Some(suffix)` where the text was cut, with the head
abbrev pub cut_suffix : Option (Text × Text) → Text → Text × Option Text
cut_suffix none whole = (whole, none)
cut_suffix (some (head, suffix)) whole = (head, some suffix)

-- one round of the loop over the three parts
parse_component : Text → Result ℕ VersionError
parse_component part =
    if is_empty part || not (all is_ascii_digit part)
    then err (invalid_component part)
    else elim (parse_uint u64_limit part) [ none ↦ err (invalid_component part) | some n ↦ ok n ]

-- `parts.len() != 3`, and the loop
parse_parts : Text → Option Text → Option Text → List Text → Result Version VersionError
unfolding parse_component
parse_parts input prerelease build (a ∷ b ∷ c ∷ []) = do
  major ← parse_component a
  minor ← parse_component b
  patch ← parse_component c
  ok (record {
    major = major;
    minor = minor;
    patch = patch;
    prerelease = prerelease;
    build = build;
  })
parse_parts input prerelease build _ = err (wrong_shape input)

unfoldable pub parse : Text → Result Version VersionError
unfolding parse_parts
parse input =
    let (before_build, build) = cut_suffix (split_once b'+' input) input in
    let (numbers, prerelease) = cut_suffix (split_once b'-' before_build) before_build in
    parse_parts input prerelease build (split b'.' numbers)

abbrev pub show_suffix : ℕ → Option Text → Text
show_suffix mark none = []
show_suffix mark (some s) = mark ∷ s

-- `Display`
unfoldable pub display : Version → Text
display v =
    show v.major
    ++ (b'.' ∷ show v.minor
        ++ (b'.' ∷ show v.patch ++ (show_suffix b'-' v.prerelease ++ show_suffix b'+' v.build)))
