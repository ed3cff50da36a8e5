-- ===== src/Update/Host/Tests.antt =====
-- The source's unit tests of the parsing.
use abora_framework.Common.{◌≡◌, refl, Lacks-by, none, some, [], ◌∷◌, true, Text, codes}
use abora_framework.Core.Version
use abora_framework.Update.Host.RoundTrip.{IsPrintable, render_all, parse_simulation-render_all}
use abora_framework.Update.Host.{
  PackageUpgrade, valid_package_name, parse_simulation, version_from_debian,
}

two_lines :
    parse_simulation (
      codes
        "Reading package lists...\nInst libssl3t64 [3.0.13-0ubuntu3.4] (3.0.13-0ubuntu3.5 Ubuntu:24.04/noble-updates [amd64])\nInst newdep (1.2-1 U [amd64])\nInst -evil (1 x)\n")
    ≡ record {
      name = codes "libssl3t64";
      from = some (codes "3.0.13-0ubuntu3.4");
      to = codes "3.0.13-0ubuntu3.5";
      source = codes "Ubuntu:24.04/noble-updates [amd64]";
    }
      ∷ record {
        name = codes "newdep";
        from = none;
        to = codes "1.2-1";
        source = codes "U [amd64]";
      }
      ∷ []
unfolding parse_simulation
two_lines = refl

debian_version : version_from_debian (codes "2:1.4.7-3ubuntu2") ≡ Version.new 1 4 7
unfolding version_from_debian
debian_version = refl

plus_plus : valid_package_name (codes "g++-13") ≡ true
unfolding valid_package_name
plus_plus = refl

abbrev curl_line : Text
curl_line = codes "Inst curl [8.5] (8.6 U [amd64])\n"

abbrev curl : PackageUpgrade
curl = record {
  name = codes "curl";
  from = some (codes "8.5");
  to = codes "8.6";
  source = codes "U [amd64]";
}

curl-valid : valid_package_name (codes "curl") ≡ true
unfolding valid_package_name
curl-valid = refl

curl-IsPrintable : IsPrintable curl
curl-IsPrintable = record {
  acceptable = record { name_valid = curl-valid; to_given = λ e. cc };
  from_plain = (Lacks-by b']' (codes "8.5") refl, Lacks-by b'\n' (codes "8.5") refl);
  to_spaceless = Lacks-by b' ' (codes "8.6") refl;
  to_plain = (Lacks-by b')' (codes "8.6") refl, Lacks-by b'\n' (codes "8.6") refl);
  source_plain = (Lacks-by b')' (codes "U [amd64]") refl, Lacks-by b'\n' (codes "U [amd64]") refl);
}

parse_simulation-render_all_example :
    parse_simulation (render_all ((curl, codes " []") ∷ [])) ≡ curl ∷ []
parse_simulation-render_all_example =
    parse_simulation-render_all ((curl, codes " []") ∷ [])
      ((curl-IsPrintable, Lacks-by b'\n' (codes " []") refl), tt)
