-- ===== src/Aborad/Reload/Settings.antt =====
-- When a reload of services/aborad/src/reload.rs reports no change.
use abora_framework.Common.{
  ◌≡◌, ◌↔◌, refl, Bool, true, false, &&-eq-true, bool_eq_iff, ==_iff, List, ◌++◌, Text, text_eq,
  text_eq_iff, is_empty,
}
use abora_framework.Config.Settings.{Config}
use abora_framework.Config.Equality.{
  option_eq, option_eq_iff, list_eq_iff, channel_eq_iff, policy_eq_iff, format_eq_iff, level_eq_iff,
  window_eq, window_eq_iff,
}
use abora_framework.Aborad.Reload.{push_unless, restart_required, changed_settings, says_unchanged}

-- The settings that a reload compares are the same.
pub record IsSame (path_eq : Text → Text → Bool) (previous fresh : Config) : Type 0 where
  pub same_hostname : previous.system.hostname ≡ fresh.system.hostname
  pub same_description : previous.system.description ≡ fresh.system.description
  pub same_channel : previous.updates.channel ≡ fresh.updates.channel
  pub same_automatic : previous.updates.automatic ≡ fresh.updates.automatic
  pub same_check_interval : previous.updates.check_interval ≡ fresh.updates.check_interval
  pub same_reboot_policy : previous.updates.reboot_policy ≡ fresh.updates.reboot_policy
  pub same_enabled : previous.maintenance.enabled ≡ fresh.maintenance.enabled
  pub same_windows : previous.maintenance.windows ≡ fresh.maintenance.windows
  pub same_require_authentication :
      previous.security.require_authentication ≡ fresh.security.require_authentication
  pub same_level : previous.logging.level ≡ fresh.logging.level
  pub same_max_payload_bytes : previous.api.max_payload_bytes ≡ fresh.api.max_payload_bytes
  pub same_request_timeout_secs : previous.api.request_timeout_secs ≡ fresh.api.request_timeout_secs
  pub same_listen_addr : previous.remote.listen_addr ≡ fresh.remote.listen_addr
  pub same_base_path : previous.api.base_path ≡ fresh.api.base_path
  pub same_format : previous.logging.format ≡ fresh.logging.format
  pub same_token_file :
      option_eq path_eq previous.security.token_file fresh.security.token_file ≡ true

-- Nothing is pushed exactly when every test succeeds.
empty-push :
    {A : Type 0} (b : Bool) (a : A) (xs : List A)
    → is_empty (push_unless b a ++ xs) ≡ true
    → (b ≡ true) × (is_empty xs ≡ true)
empty-push true a xs h = (refl, h)
empty-push false a xs h = cc

last-push : {A : Type 0} (b : Bool) (a : A) → is_empty (push_unless b a) ≡ true → b ≡ true
last-push true a h = refl
last-push false a h = cc

says_unchanged-IsSame :
    (path_eq : Text → Text → Bool) (p f : Config)
    → says_unchanged path_eq p f ≡ true
    → IsSame path_eq p f
unfolding changed_settings restart_required
says_unchanged-IsSame path_eq p f h =
    let (changes, restarts) =
      &&-eq-true (is_empty (changed_settings path_eq p f)) (is_empty (restart_required p f)) h in
    let (t_hostname, r_hostname) = empty-push _ _ _ changes in
    let (t_description, r_description) = empty-push _ _ _ r_hostname in
    let (t_channel, r_channel) = empty-push _ _ _ r_description in
    let (t_automatic, r_automatic) = empty-push _ _ _ r_channel in
    let (t_check_interval, r_check_interval) = empty-push _ _ _ r_automatic in
    let (t_reboot_policy, r_reboot_policy) = empty-push _ _ _ r_check_interval in
    let (t_enabled, r_enabled) = empty-push _ _ _ r_reboot_policy in
    let (t_windows, r_windows) = empty-push _ _ _ r_enabled in
    let (t_require_authentication, r_require_authentication) = empty-push _ _ _ r_windows in
    let (t_token_file, r_token_file) = empty-push _ _ _ r_require_authentication in
    let (t_level, r_level) = empty-push _ _ _ r_token_file in
    let (t_max_payload_bytes, r_max_payload_bytes) = empty-push _ _ _ r_level in
    let t_request_timeout_secs = last-push _ _ r_max_payload_bytes in
    let (t_listen_addr, r_listen_addr) = empty-push _ _ _ restarts in
    let (t_base_path, r_base_path) = empty-push _ _ _ r_listen_addr in
    let t_format = last-push _ _ r_base_path in
    record {
      same_hostname =
          (option_eq_iff text_eq text_eq_iff p.system.hostname f.system.hostname).0 t_hostname;
      same_description =
          (option_eq_iff text_eq text_eq_iff p.system.description f.system.description).0
            t_description;
      same_channel = (channel_eq_iff p.updates.channel f.updates.channel).0 t_channel;
      same_automatic = (bool_eq_iff p.updates.automatic f.updates.automatic).0 t_automatic;
      same_check_interval =
          (text_eq_iff p.updates.check_interval f.updates.check_interval).0 t_check_interval;
      same_reboot_policy =
          (policy_eq_iff p.updates.reboot_policy f.updates.reboot_policy).0 t_reboot_policy;
      same_enabled = (bool_eq_iff p.maintenance.enabled f.maintenance.enabled).0 t_enabled;
      same_windows =
          (list_eq_iff window_eq window_eq_iff p.maintenance.windows f.maintenance.windows).0
            t_windows;
      same_require_authentication =
          (bool_eq_iff p.security.require_authentication f.security.require_authentication).0
            t_require_authentication;
      same_token_file = t_token_file;
      same_level = (level_eq_iff p.logging.level f.logging.level).0 t_level;
      same_max_payload_bytes =
          (==_iff p.api.max_payload_bytes f.api.max_payload_bytes).0 t_max_payload_bytes;
      same_request_timeout_secs =
          (==_iff p.api.request_timeout_secs f.api.request_timeout_secs).0 t_request_timeout_secs;
      same_listen_addr = (text_eq_iff p.remote.listen_addr f.remote.listen_addr).0 t_listen_addr;
      same_base_path = (text_eq_iff p.api.base_path f.api.base_path).0 t_base_path;
      same_format = (format_eq_iff p.logging.format f.logging.format).0 t_format;
    }

settings_same :
    (path_eq : Text → Text → Bool) (p f : Config)
    → IsSame path_eq p f
    → says_unchanged path_eq p f ≡ true
unfolding changed_settings restart_required
settings_same path_eq p f h =
    let t_hostname =
      (option_eq_iff text_eq text_eq_iff p.system.hostname f.system.hostname).1 h.same_hostname in
    let t_description =
      (option_eq_iff text_eq text_eq_iff p.system.description f.system.description).1
        h.same_description in
    let t_channel = (channel_eq_iff p.updates.channel f.updates.channel).1 h.same_channel in
    let t_automatic = (bool_eq_iff p.updates.automatic f.updates.automatic).1 h.same_automatic in
    let t_check_interval =
      (text_eq_iff p.updates.check_interval f.updates.check_interval).1 h.same_check_interval in
    let t_reboot_policy =
      (policy_eq_iff p.updates.reboot_policy f.updates.reboot_policy).1 h.same_reboot_policy in
    let t_enabled = (bool_eq_iff p.maintenance.enabled f.maintenance.enabled).1 h.same_enabled in
    let t_windows =
      (list_eq_iff window_eq window_eq_iff p.maintenance.windows f.maintenance.windows).1
        h.same_windows in
    let t_require_authentication =
      (bool_eq_iff p.security.require_authentication f.security.require_authentication).1
        h.same_require_authentication in
    let t_level = (level_eq_iff p.logging.level f.logging.level).1 h.same_level in
    let t_max_payload_bytes =
      (==_iff p.api.max_payload_bytes f.api.max_payload_bytes).1 h.same_max_payload_bytes in
    let t_request_timeout_secs =
      (==_iff p.api.request_timeout_secs f.api.request_timeout_secs).1
        h.same_request_timeout_secs in
    let t_listen_addr =
      (text_eq_iff p.remote.listen_addr f.remote.listen_addr).1 h.same_listen_addr in
    let t_base_path = (text_eq_iff p.api.base_path f.api.base_path).1 h.same_base_path in
    let t_format = (format_eq_iff p.logging.format f.logging.format).1 h.same_format in
    rw
      (
        t_hostname, t_description, t_channel, t_automatic, t_check_interval, t_reboot_policy,
        t_enabled, t_windows, t_require_authentication, h.same_token_file, t_level,
        t_max_payload_bytes, t_request_timeout_secs, t_listen_addr, t_base_path, t_format,
      )
      refl

-- A reload is logged as `configuration unchanged` exactly when the settings that it compares are the
-- same; it compares no other setting.
pub says_unchanged_iff :
    (path_eq : Text → Text → Bool) (p f : Config)
    → (says_unchanged path_eq p f ≡ true) ↔ IsSame path_eq p f
says_unchanged_iff path_eq p f = (says_unchanged-IsSame path_eq p f, settings_same path_eq p f)
