-- ===== src/Core/Version/Tests.antt =====
-- The source's unit tests of `Version`.
use abora_framework.Common.{◌≡◌, refl, arith, Lacks-by, some, [], ok, err, codes}
use abora_framework.Common.Decimal.{parse_uint, show}
use abora_framework.Core.Version.RoundTrip.{IsCanonical, parse-display}
use abora_framework.Core.Version.{Version, wrong_shape, invalid_component, parse, display}

abbrev full : Version
full = record {
  major = 1;
  minor = 2;
  patch = 3;
  prerelease = some (codes "alpha.1");
  build = some (codes "build.7");
}

parse-full : parse (codes "1.2.3-alpha.1+build.7") ≡ ok full
unfolding parse parse_uint
parse-full = refl

display-full : display full ≡ codes "1.2.3-alpha.1+build.7"
unfolding display show
display-full = refl

reject_two_parts : parse (codes "1.2") ≡ err (wrong_shape (codes "1.2"))
unfolding parse parse_uint
reject_two_parts = refl

reject_empty_part : parse (codes "1..3") ≡ err (invalid_component [])
unfolding parse parse_uint
reject_empty_part = refl

full-IsCanonical : IsCanonical full
full-IsCanonical = record {
  major_fits = omega arith;
  minor_fits = omega arith;
  patch_fits = omega arith;
  prerelease_lacks = Lacks-by b'+' (codes "alpha.1") refl;
}

parse-display_example : parse (display full) ≡ ok full
parse-display_example = parse-display full full-IsCanonical
