-- ===== src/Aborad/Queries/Tests.antt =====
-- A page of the running services, asked for in two orders.
use abora_framework.Common.{
  ◌+◌, ◌<◌, ◌≡◌, refl, arith, true, List, [], ◌∷◌, none, some, ok, Text, codes, text_eq_iff, length,
  filter, swap, ok-injective, subst,
}
use abora_framework.Common.Decimal.{u64_limit, parse_uint}
use abora_framework.Services.{
  running, ServiceStatus, ServiceQuery, default_query, matches, total_matching, apply,
}
use abora_framework.Services.Pages.{page}
use abora_framework.Services.Systemd.{
  Systemctl, collect, run_systemctl_raw, listed, parse_list_units, parse_list_unit_files,
  file_state_enabled, sort_by_name,
}
use abora_framework.Aborad.Queries.{
  max_service_page, state_setting, enabled_setting, setting_of, read_params, parse_service_query,
  services,
}
use abora_framework.Aborad.Queries.Orders.{HasDistinctKeys, parse_service_query-Shuffled}
use abora_framework.Aborad.Queries.Answers.{HasSmallLimit, services_answers}

abbrev params : List (Text × Text)
params = (codes "limit", codes "2") ∷ (codes "state", codes "running") ∷ []

abbrev query : ServiceQuery
query = record default_query { limit = some 2; state = some running }

params_read : parse_service_query params ≡ ok query
unfolding parse_service_query read_params setting_of state_setting enabled_setting parse_uint
params_read = refl

params-HasDistinctKeys : HasDistinctKeys params
params-HasDistinctKeys =
    ((λ e. let equal = (text_eq_iff (codes "limit") (codes "state")).1 e in cc, tt), (tt, tt))

parse_service_query-Shuffled_example :
    parse_service_query ((codes "state", codes "running") ∷ (codes "limit", codes "2") ∷ [])
    ≡ ok query
parse_service_query-Shuffled_example =
    parse_service_query-Shuffled params
      ((codes "state", codes "running") ∷ (codes "limit", codes "2") ∷ []) query
      (swap (codes "limit", codes "2") (codes "state", codes "running") []) params-HasDistinctKeys
      params_read

abbrev systemctl : Systemctl
systemctl args = ok (true, codes "ssh.service loaded active running\n", [])

abbrev ssh : ServiceStatus
ssh = record { name = codes "ssh.service"; state = running; enabled = none; description = none }

ssh_collected : collect systemctl ≡ ok (ssh ∷ [])
unfolding collect run_systemctl_raw listed parse_list_units parse_list_unit_files file_state_enabled
    sort_by_name
ssh_collected = refl

ssh_answered : services systemctl params ≡ ok (1, some (ssh ∷ []))
unfolding services parse_service_query read_params setting_of state_setting enabled_setting
    parse_uint collect run_systemctl_raw listed parse_list_units parse_list_unit_files
    file_state_enabled sort_by_name total_matching apply matches
ssh_answered = refl

few :
    (units : List ServiceStatus)
    → collect systemctl ≡ ok units
    → max_service_page + length units < u64_limit
few units h =
    let is = ok-injective (rw ssh_collected at h) in
    subst (λ us. max_service_page + length us < u64_limit) is (omega arith)

services_answers_example :
    (q : ServiceQuery) × (units : List ServiceStatus) × (parse_service_query params ≡ ok q)
    × HasSmallLimit q.limit
    × (collect systemctl ≡ ok units)
    × (1 ≡ length (filter (matches q) units))
    × (some (ssh ∷ []) ≡ some (page q.limit q.offset (filter (matches q) units)))
services_answers_example = services_answers systemctl params 1 (some (ssh ∷ [])) few ssh_answered
