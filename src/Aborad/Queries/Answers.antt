-- ===== src/Aborad/Queries/Answers.antt =====
-- What the service routes answer.
use abora_framework.Common.{
  ℕ, ◌+◌, ◌≤◌, ◌<◌, leb, ◌≡◌, ◌⊎◌, refl, sym, ap, ◌∙◌, subst, arith, false, ◌&&◌, List, [], ◌∷◌,
  Option, none, some, and_then, Result, ok, err, >>=-eq-ok, ok-injective, err-injective, ◌++◌,
  if_elim, Text, codes, text_eq, trim, length, filter, Bool-cases, inl, inr,
}
use abora_framework.Common.Decimal.{u64_limit, parse_uint}
use abora_framework.Api.{ApiErrorDetail, ErrorCode}
use abora_framework.Services.{
  ServiceStatus, ServiceQuery, ServicesError, default_query, matches, total_matching,
  validate_unit_name,
}
use abora_framework.Services.Pages.{page, limit_or_zero, apply-page}
use abora_framework.Services.Systemd.{Systemctl, shared_flags, collect}
use abora_framework.Services.Systemd.Details.{ServiceDetail, show_args, detail}
use abora_framework.Services.Systemd.Details.Names.{IsUnitName, validate_unit_name_iff}
use abora_framework.Services.Systemd.Details.Missing.{IsMissing, detail-not_found_iff}
use abora_framework.Aborad.Queries.{
  max_service_page, Setting, set_state, set_enabled, set_text, set_limit, set_offset, put,
  state_setting, enabled_setting, in_page_range, limit_of, offset_of, setting_of, read_params,
  parse_service_query, units_or_unavailable, services, detail_answer, service_detail,
}

-- A limit is from 1 to 1000.
abbrev pub HasSmallLimit : Option ℕ → Type 0
HasSmallLimit none = Unit
HasSmallLimit (some n) = (1 ≤ n) × (n ≤ max_service_page)

abbrev IsSmall : Setting → Type 0
IsSmall (set_state s) = Unit
IsSmall (set_enabled b) = Unit
IsSmall (set_text t) = Unit
IsSmall (set_limit n) = (1 ≤ n) × (n ≤ max_service_page)
IsSmall (set_offset n) = Unit

put-HasSmallLimit :
    (s : Setting) (query : ServiceQuery)
    → IsSmall s
    → HasSmallLimit query.limit
    → HasSmallLimit (put s query).limit
put-HasSmallLimit (set_state s) query k h = h
put-HasSmallLimit (set_enabled b) query k h = h
put-HasSmallLimit (set_text t) query k h = h
put-HasSmallLimit (set_limit n) query k h = k
put-HasSmallLimit (set_offset n) query k h = h

abbrev IsSmallOk : Result Setting ApiErrorDetail → Type 0
IsSmallOk (ok s) = IsSmall s
IsSmallOk (err e) = Unit

limit_of-IsSmall : (o : Option ℕ) → IsSmallOk (limit_of (and_then o in_page_range))
limit_of-IsSmall none = tt
limit_of-IsSmall (some n) = elim (Bool-cases (leb 1 n && leb n max_service_page)) [
  | inl e ↦ rw e (ground (arith, e), ground (arith, e))
  | inr e ↦ rw e tt
]

offset_of-IsSmall : (o : Option ℕ) → IsSmallOk (offset_of o)
offset_of-IsSmall none = tt
offset_of-IsSmall (some n) = tt

state_setting-IsSmall : (value : Text) → IsSmallOk (state_setting value)
unfolding state_setting
state_setting-IsSmall value =
    if_elim IsSmallOk (text_eq value (codes "running")) _ _ (λ _. tt)
      (λ _.
        (if_elim IsSmallOk (text_eq value (codes "stopped")) _ _ (λ _. tt)
          (λ _.
            (if_elim IsSmallOk (text_eq value (codes "failed")) _ _ (λ _. tt)
              (λ _.
                (if_elim IsSmallOk (text_eq value (codes "activating")) _ _ (λ _. tt)
                  (λ _.
                    (if_elim IsSmallOk (text_eq value (codes "deactivating")) _ _ (λ _. tt)
                      (λ _.
                        (if_elim IsSmallOk (text_eq value (codes "unknown")) _ _ (λ _. tt)
                          (λ _. tt)))))))))))

enabled_setting-IsSmall : (value : Text) → IsSmallOk (enabled_setting value)
unfolding enabled_setting
enabled_setting-IsSmall value =
    if_elim IsSmallOk (text_eq value (codes "true")) _ _ (λ _. tt)
      (λ _. if_elim IsSmallOk (text_eq value (codes "false")) _ _ (λ _. tt) (λ _. tt))

setting_of-IsSmall : (key value : Text) → IsSmallOk (setting_of key value)
unfolding setting_of
setting_of-IsSmall key value =
    if_elim IsSmallOk (text_eq key (codes "state")) _ _ (λ _. state_setting-IsSmall value)
      (λ _.
        if_elim IsSmallOk (text_eq key (codes "enabled")) _ _ (λ _. enabled_setting-IsSmall value)
          (λ _.
            if_elim IsSmallOk (text_eq key (codes "q")) _ _ (λ _. tt)
              (λ _.
                if_elim IsSmallOk (text_eq key (codes "limit")) _ _
                  (λ _. limit_of-IsSmall (parse_uint u64_limit value))
                  (λ _.
                    if_elim IsSmallOk (text_eq key (codes "offset")) _ _
                      (λ _. offset_of-IsSmall (parse_uint u64_limit value)) (λ _. tt)))))

read_params-HasSmallLimit :
    (params : List (Text × Text)) (query out : ServiceQuery)
    → HasSmallLimit query.limit
    → read_params params query ≡ ok out
    → HasSmallLimit out.limit
unfolding read_params
read_params-HasSmallLimit [] query out h e =
    subst (λ (q : ServiceQuery). HasSmallLimit q.limit) (ok-injective e) h
read_params-HasSmallLimit ((key, value) ∷ params) query out h e =
    let (s, assigned, rest) = >>=-eq-ok (setting_of key value) _ e in
    read_params-HasSmallLimit params (put s query) out
      (put-HasSmallLimit s query (subst IsSmallOk assigned (setting_of-IsSmall key value)) h) rest

HasSmallLimit-le : (o : Option ℕ) → HasSmallLimit o → limit_or_zero o ≤ max_service_page
HasSmallLimit-le none h = omega arith
HasSmallLimit-le (some n) h = h.1

-- Where fewer than 2^64 - 1000 services are listed, the service list never panics: an answer has a
-- query whose limit, if there is one, is from 1 to 1000, the units that are listed, the number of
-- those that match, and their page.
pub services_answers :
    (systemctl : Systemctl) (params : List (Text × Text)) (total : ℕ)
    (answer : Option (List ServiceStatus))
    → ((units : List ServiceStatus)
        → collect systemctl ≡ ok units
        → max_service_page + length units < u64_limit)
    → services systemctl params ≡ ok (total, answer)
    → (query : ServiceQuery) × (units : List ServiceStatus) × (parse_service_query params
        ≡ ok query)
      × HasSmallLimit query.limit
      × (collect systemctl ≡ ok units)
      × (total ≡ length (filter (matches query) units))
      × (answer ≡ some (page query.limit query.offset (filter (matches query) units)))
unfolding services total_matching parse_service_query
services_answers systemctl params total answer fits e =
    let (query, parsed, rest) = >>=-eq-ok (parse_service_query params) _ e in
    let (units, listed, shown) = >>=-eq-ok (units_or_unavailable (collect systemctl)) _ rest in
    let collected = units_or_unavailable-eq (collect systemctl) listed in
    let small = read_params-HasSmallLimit params default_query query tt parsed in
    (
      query,
      units,
      parsed,
      small,
      collected,
      sym (ap (λ p. p.0) (ok-injective shown)),
      sym (ap (λ p. p.1) (ok-injective shown))
          ∙ apply-page query units
              (omega (arith, HasSmallLimit-le query.limit small, fits units collected)),
    )
  where
    units_or_unavailable-eq :
        {units : List ServiceStatus} (r : Result (List ServiceStatus) ServicesError)
        → units_or_unavailable r ≡ ok units
        → r ≡ ok units
    units_or_unavailable-eq (ok us) h = ap ok (ok-injective h)
    units_or_unavailable-eq (err x) h = cc

-- What an error of the detail route says of the unit.
abbrev pub IsDetailError : Systemctl → Text → ApiErrorDetail → Type 0
IsDetailError systemctl name e =
    ((e.code ≡ ErrorCode.invalid_request) × (validate_unit_name name ≡ false))
    ⊎ ((e.code ≡ ErrorCode.not_found)
        × IsUnitName name
        × IsUnitName (trim name)
        × IsMissing (systemctl (shared_flags ++ show_args (trim name))))
    ⊎ ((e.code ≡ ErrorCode.service_unavailable)
        × IsUnitName name
        × ((x : ServicesError) × (detail systemctl name ≡ err x)))

detail_answer-error :
    (systemctl : Systemctl) (name : Text) (r : Result ServiceDetail ServicesError)
    (e : ApiErrorDetail)
    → detail systemctl name ≡ r
    → IsUnitName name
    → detail_answer r ≡ err e
    → IsDetailError systemctl name e
detail_answer-error systemctl name (ok d) e same valid h = cc
detail_answer-error systemctl name (err (ServicesError.not_found n)) e same valid h =
    let (trimmed, _, missing) = (detail-not_found_iff systemctl name n).0 same in
    inr (inl (sym (ap (λ (x : ApiErrorDetail). x.code) (err-injective h)), valid, trimmed, missing))
detail_answer-error systemctl name (err ServicesError.not_supported) e same valid h =
    inr (inr (sym (ap (λ (x : ApiErrorDetail). x.code) (err-injective h)), valid, (_, same)))
detail_answer-error systemctl name (err (ServicesError.systemd x)) e same valid h =
    inr (inr (sym (ap (λ (x : ApiErrorDetail). x.code) (err-injective h)), valid, (_, same)))
detail_answer-error systemctl name (err (ServicesError.parse x)) e same valid h =
    inr (inr (sym (ap (λ (x : ApiErrorDetail). x.code) (err-injective h)), valid, (_, same)))

-- An error of the detail route is a 400 for a name that is no unit name, a 404 for a unit that
-- systemctl reports missing, or a 503 for any other failure.
pub service_detail_errors :
    (systemctl : Systemctl) (name : Text) (e : ApiErrorDetail)
    → service_detail systemctl name ≡ err e
    → IsDetailError systemctl name e
unfolding service_detail
service_detail_errors systemctl name e h = elim (Bool-cases (validate_unit_name name)) [
  | inl valid ↦
      detail_answer-error systemctl name (detail systemctl name) e refl
        ((validate_unit_name_iff name).0 valid) (rw valid at h)
  | inr bad ↦ inl (sym (ap (λ (x : ApiErrorDetail). x.code) (err-injective (rw bad at h))), bad)
]
