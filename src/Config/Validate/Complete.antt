-- ===== src/Config/Validate/Complete.antt =====
-- A configuration passes `validate` exactly when it is sound, section by section.
use abora_framework.Common.{
  ℕ, ◌≤◌, ◌≡◌, ◌≢◌, ◌↔◌, refl, arith, Bool, true, false, not, ◌||◌, List, [], ◌∷◌, Option, none,
  some, ok, Result-cases, All, Text, codes, is_empty, any, is_whitespace, trim, starts_with, len,
  text_eq, text_eq_iff, ltb, if◌then◌else◌, subst, sym, ap, ◌==◌, inl, inr,
}
use abora_framework.Config.Duration.{parse_duration}
use abora_framework.Config.Settings.{Config, UpdatesConfig, ApiConfig}
use abora_framework.Config.Validate.{
  Problem, hostname_empty, hostname_whitespace, base_path_trivial, base_path_padded, unless_empty,
  push_if, is_absolute, hostname_problems, interval_problems, updates_problems, validate_windows,
  base_path_problems, api_problems, problems, validate,
}
use abora_framework.Config.Validate.Windows.{
  IsWellFormed, append-eq-nil, append_of_nil, push_if-eq-nil, validate_windows_iff,
}

-- A host name override is not blank, and has no white space inside.
abbrev pub HostnameSound : Option Text → Type 0
HostnameSound none = Unit
HostnameSound (some h) = (trim h ≢ []) × All (λ c. is_whitespace c ≡ false) (trim h)

-- What a valid configuration promises.
pub record IsSound (is_socket_addr : Text → Bool) (c : Config) : Type 0 where
  pub hostname : HostnameSound c.system.hostname
  pub result_file : is_absolute c.updates.apply_result_file ≡ true
  pub state_file : is_absolute c.updates.state_file ≡ true
  pub interval : (seconds : ℕ) × (parse_duration c.updates.check_interval ≡ ok seconds)
  pub windows : All IsWellFormed c.maintenance.windows
  pub listen_addr : is_socket_addr c.remote.listen_addr ≡ true
  pub base_path_rooted : starts_with c.api.base_path (codes "/") ≡ true
  pub base_path_long : 2 ≤ len c.api.base_path
  pub base_path_trimmed : trim c.api.base_path ≡ c.api.base_path
  pub payload : c.api.max_payload_bytes ≢ 0
  pub timeout : c.api.request_timeout_secs ≢ 0

no_whitespace : (s : Text) → any is_whitespace s ≡ false → All (λ c. is_whitespace c ≡ false) s
no_whitespace [] h = tt
no_whitespace (c ∷ s) h = (ground arith, no_whitespace s (ground arith))

any_no_whitespace : (s : Text) → All (λ c. is_whitespace c ≡ false) s → any is_whitespace s ≡ false
any_no_whitespace [] h = refl
any_no_whitespace (c ∷ s) (hc, h) = rw hc (any_no_whitespace s h)

blank_check :
    (hostname t : Text)
    → ((if is_empty t
          then hostname_empty ∷ []
          else push_if (any is_whitespace t) (hostname_whitespace hostname))
        ≡ [])
      ↔ ((t ≢ []) × All (λ c. is_whitespace c ≡ false) t)
blank_check hostname [] = (λ h. cc, λ (h, _). absurd (h refl))
blank_check hostname (c ∷ t) = (
  λ h. (λ e. cc, no_whitespace (c ∷ t) (push_if-eq-nil (any is_whitespace (c ∷ t)) _ h)),
  λ (_, h). rw (any_no_whitespace (c ∷ t) h),
)

hostname_problems_iff : (o : Option Text) → (hostname_problems o ≡ []) ↔ HostnameSound o
unfolding hostname_problems
hostname_problems_iff none = (λ _. tt, λ _. refl)
hostname_problems_iff (some h) = blank_check h (trim h)

interval_problems_iff :
    (value : Text)
    → (interval_problems value ≡ []) ↔ ((seconds : ℕ) × (parse_duration value ≡ ok seconds))
unfolding interval_problems
interval_problems_iff value = elim (Result-cases (parse_duration value)) [
  | inl (n, e) ↦ (λ _. (n, e), λ _. rw (e, interval_problems))
  | inr (w, e) ↦ (λ h. cc (rw (e, interval_problems) at h), λ (n, e'). cc)
]

path_check :
    (path t : Text)
    → ((if not (starts_with t (codes "/")) || ltb (len t) 2
          then base_path_trivial path ∷ []
          else push_if (not (text_eq path t)) base_path_padded)
        ≡ [])
      ↔ ((starts_with t (codes "/") ≡ true) × (2 ≤ len t) × (path ≡ t))
path_check path t = (
  λ h. (ground arith, ground arith, ground (arith, text_eq_iff path t)),
  λ (p, q, r). ground (arith, text_eq_iff path t),
)

-- All that the last section checks.
api_problems_iff :
    (a : ApiConfig)
    → (api_problems a ≡ []) ↔ (
        (starts_with (trim a.base_path) (codes "/") ≡ true)
        × (2 ≤ len (trim a.base_path))
        × (a.base_path ≡ trim a.base_path)
        × (a.max_payload_bytes ≢ 0)
        × (a.request_timeout_secs ≢ 0))
unfolding api_problems base_path_problems
api_problems_iff a = (
  λ h.
      let (path, limits) = append-eq-nil (base_path_problems a.base_path) _ h in
      let (payload, timeout) = append-eq-nil (push_if (a.max_payload_bytes == 0) _) _ limits in
      let (rooted, long, same) = (path_check a.base_path (trim a.base_path)).0 path in
      let p = push_if-eq-nil (a.max_payload_bytes == 0) _ payload in
      let t = push_if-eq-nil (a.request_timeout_secs == 0) _ timeout in
      (rooted, long, same, λ e. cc (rw e at p), λ e. cc (rw e at t)),
  λ (rooted, long, same, p, t).
      rw ((path_check a.base_path (trim a.base_path)).1 (rooted, long, same)) (ground arith),
)

updates_problems_iff :
    (u : UpdatesConfig)
    → (updates_problems u ≡ []) ↔ (
        (is_absolute u.apply_result_file ≡ true)
        × (is_absolute u.state_file ≡ true)
        × ((seconds : ℕ) × (parse_duration u.check_interval ≡ ok seconds)))
unfolding updates_problems
updates_problems_iff u = (
  λ h.
      let (result, later) = append-eq-nil (push_if (not (is_absolute u.apply_result_file)) _) _ h in
      let (state, interval) = append-eq-nil (push_if (not (is_absolute u.state_file)) _) _ later in
      let r = push_if-eq-nil (not (is_absolute u.apply_result_file)) _ result in
      let s = push_if-eq-nil (not (is_absolute u.state_file)) _ state in
      (ground arith, ground arith, (interval_problems_iff u.check_interval).0 interval),
  λ (r, s, i). rw (r, s) ((interval_problems_iff u.check_interval).1 i),
)

push_if_false : (b : Bool) (p : Problem) → b ≡ true → push_if (not b) p ≡ []
push_if_false b p h = rw h

-- A configuration passes exactly when it is sound.
pub validate_iff :
    (is_socket_addr : Text → Bool) (c : Config)
    → (validate is_socket_addr c ≡ ok tt) ↔ IsSound is_socket_addr c
unfolding validate
validate_iff is_socket_addr c = (λ h. sound (nothing (problems is_socket_addr c) h), clean)
  where
    nothing : (ps : List Problem) → unless_empty ps ≡ ok tt → ps ≡ []
    nothing [] h = refl
    nothing (p ∷ ps) h = cc

    sound : problems is_socket_addr c ≡ [] → IsSound is_socket_addr c
    sound h =
        let (name, h1) = append-eq-nil (hostname_problems c.system.hostname) _ h in
        let (updates, h2) = append-eq-nil (updates_problems c.updates) _ h1 in
        let (windows, h3) = append-eq-nil (validate_windows 0 c.maintenance.windows) _ h2 in
        let (listen, api) =
          append-eq-nil (push_if (not (is_socket_addr c.remote.listen_addr)) _) _ h3 in
        let addr = push_if-eq-nil (not (is_socket_addr c.remote.listen_addr)) _ listen in
        let (result, state, interval) = (updates_problems_iff c.updates).0 updates in
        let (rooted, long, same, payload, timeout) = (api_problems_iff c.api).0 api in
        record {
          hostname = (hostname_problems_iff c.system.hostname).0 name;
          result_file = result;
          state_file = state;
          interval = interval;
          windows = (validate_windows_iff 0 c.maintenance.windows).0 windows;
          listen_addr = ground arith;
          base_path_rooted = subst (λ t. starts_with t (codes "/") ≡ true) (sym same) rooted;
          base_path_long = subst (λ t. 2 ≤ len t) (sym same) long;
          base_path_trimmed = sym same;
          payload = payload;
          timeout = timeout;
        }

    clean : IsSound is_socket_addr c → validate is_socket_addr c ≡ ok tt
    clean s =
        let same = sym s.base_path_trimmed in
        let hostname = (hostname_problems_iff c.system.hostname).1 s.hostname in
        let updates =
          (updates_problems_iff c.updates).1 (s.result_file, s.state_file, s.interval) in
        let windows = (validate_windows_iff 0 c.maintenance.windows).1 s.windows in
        let listen = push_if_false (is_socket_addr c.remote.listen_addr) _ s.listen_addr in
        let api = (api_problems_iff c.api).1 (
          subst (λ t. starts_with t (codes "/") ≡ true) same s.base_path_rooted,
          subst (λ t. 2 ≤ len t) same s.base_path_long,
          same,
          s.payload,
          s.timeout,
        ) in
        ap unless_empty (
          append_of_nil hostname
            (append_of_nil updates (append_of_nil windows (append_of_nil listen api))))
