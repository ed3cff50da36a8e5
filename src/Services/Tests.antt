-- ===== src/Services/Tests.antt =====
-- Two services, of which systemctl lists one first that comes second in the order of names.
use abora_framework.Common.{
  ◌*◌, ◌≤◌, filter, ◌≡◌, ◌↔◌, refl, arith, true, false, List, [], ◌∷◌, ◌++◌, map, All, Shuffled,
  none, some, ok, err, Text, codes, text_eq, trim, if◌then◌else◌,
}
use abora_framework.Services.{
  running, failed, ServiceStatus, not_found, default_query, matches, total_matching, apply,
}
use abora_framework.Services.Pages.{walk, walk-matches}
use abora_framework.Services.Systemd.{
  Systemctl, shared_flags, parse_list_units, parse_list_unit_files, file_state_enabled,
  sort_by_name, listed,
}
use abora_framework.Services.Systemd.Listing.{IsSorted, IsService, hinted, listed-IsSorted}
use abora_framework.Services.Systemd.Details.{show_args, detail}
use abora_framework.Services.Systemd.Details.Names.{IsUnitName, detail-agree}
use abora_framework.Services.Systemd.Details.Missing.{IsMissing, detail-not_found_iff}

abbrev service : Text → ServiceStatus
service name = record { name = name; state = running; enabled = some true; description = none }

abbrev three : List ServiceStatus
three = service (codes "a.service") ∷ service (codes "b.service") ∷ service (codes "c.service") ∷ []

second_page :
    apply (record default_query { limit = some 1; offset = 1 }) three
    ≡ some (service (codes "b.service") ∷ [])
unfolding apply matches
second_page = refl

two_enough : total_matching default_query three ≤ 2 * 2
unfolding total_matching matches
two_enough = omega arith

walk-matches_example : walk default_query three 2 2 0 ≡ some (filter (matches default_query) three)
walk-matches_example = walk-matches default_query three 1 2 (omega arith) two_enough

abbrev units : Text
units =
    codes
      "UNIT LOAD ACTIVE SUB DESCRIPTION\n  ssh.service loaded active running OpenBSD Secure Shell\n  cron.service loaded failed failed\n"

abbrev files : Text
files = codes "UNIT FILE STATE\nssh.service enabled enabled\n"

units_listed :
    listed units files
    ≡ record { name = codes "cron.service"; state = failed; enabled = none; description = none }
      ∷ record {
        name = codes "ssh.service";
        state = running;
        enabled = some true;
        description = some (codes "OpenBSD Secure Shell");
      }
      ∷ []
unfolding listed parse_list_units parse_list_unit_files file_state_enabled sort_by_name
units_listed = refl

listed-IsSorted_example :
    IsSorted (listed units files)
    × Shuffled (map (hinted files) (parse_list_units units)) (listed units files)
    × All IsService (listed units files)
listed-IsSorted_example = listed-IsSorted units files

abbrev found : Systemctl
found args = ok (true, codes "LoadState=loaded\nMainPID=7\n", [])

-- answers like the other one, but only to `show`
abbrev only_show : Systemctl
only_show (a ∷ b ∷ c ∷ d ∷ command ∷ args) =
    if text_eq command (codes "show") then found args else err (codes "not now")
only_show _ = err (codes "not now")

agree :
    (unit : Text)
    → found (shared_flags ++ show_args unit) ≡ only_show (shared_flags ++ show_args unit)
unfolding show_args
agree unit = refl

detail-agree_example : detail found (codes "ssh.service") ≡ detail only_show (codes "ssh.service")
detail-agree_example = detail-agree found only_show (codes "ssh.service") (λ unit valid. agree unit)

abbrev missing : Systemctl
missing args = ok (false, [], codes "Unit gone.service could not be found: No such unit")

detail-not_found_iff_example :
    (detail missing (codes " gone.service") ≡ err (not_found (codes "gone.service"))) ↔ (
      IsUnitName (trim (codes " gone.service"))
      × (codes "gone.service" ≡ trim (codes " gone.service"))
      × IsMissing (missing (shared_flags ++ show_args (trim (codes " gone.service")))))
detail-not_found_iff_example =
    detail-not_found_iff missing (codes " gone.service") (codes "gone.service")
