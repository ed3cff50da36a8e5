-- ===== src/Aborad/Watch/Settles.antt =====
-- When the watch of services/aborad/src/main.rs reloads again.
use abora_framework.Common.{
  ◌≡◌, ◌≢◌, ◌↔◌, ◌⊎◌, refl, sym, ap, ◌∙◌, subst, arith, Bool, true, false, not, ◌||◌, ◌&&◌, ◌==◌,
  none, some, Text, inl, inr, Bool-cases,
}
use abora_framework.Config.Settings.{Config}
use abora_framework.Aborad.Reload.Safety.{reload_again}
use abora_framework.Aborad.Reload.{ReloadSource, file_path, Outside, reload}
use abora_framework.Aborad.Watch.{
  Fingerprint, fingerprint_eq, or_seen, fingerprint_of, fingerprint_of_token, WatchState,
  watch_tick,
}

-- A file that was seen cannot be read now.
abbrev pub IsGone : Fingerprint → Fingerprint → Type 0
IsGone now seen = (now ≡ none) × (seen ≢ none)

fingerprint_eq_refl : (p : Fingerprint) → fingerprint_eq p p ≡ true
fingerprint_eq_refl none = refl
fingerprint_eq_refl (some (t, n)) = ground arith

differs_iff : (p q : Fingerprint) → (not (fingerprint_eq p q) ≡ true) ↔ (p ≢ q)
differs_iff none none = (λ h. cc, λ h. absurd (h refl))
differs_iff none (some q) = (λ h e. cc, λ h. refl)
differs_iff (some p) none = (λ h e. cc, λ h. refl)
differs_iff (some (t, n)) (some (u, m)) = (
  λ h e.
      let p : Fingerprint = some (t, n) in
      let k = subst (λ q. not (fingerprint_eq p q) ≡ true) (sym e) h in
      cc (rw (fingerprint_eq_refl p) at k),
  λ k. elim (Bool-cases (t == u && n == m)) [
    | inl e ↦
        let times : t ≡ u = ground (arith, e) in
        let lengths : n ≡ m = ground (arith, e) in absurd (k (rw (times, lengths) refl))
    | inr e ↦ rw e refl
  ],
)

-- What was remembered differs from what is there exactly where the file is gone.
again_iff : (now seen : Fingerprint) → (now ≢ or_seen now seen) ↔ IsGone now seen
again_iff none none = (λ h. absurd (h refl), λ h. absurd (h.1 refl))
again_iff none (some p) = (λ h. (refl, λ e. cc), λ h e. cc)
again_iff (some p) seen = (λ h. absurd (h refl), λ h. cc)

IsGone-or_seen : (now seen : Fingerprint) → IsGone now (or_seen now seen) ↔ IsGone now seen
IsGone-or_seen none seen = (λ h. h, λ h. h)
IsGone-or_seen (some p) seen = (λ h. cc, λ h. cc)

gone_differs : {now seen : Fingerprint} → IsGone now seen → now ≢ seen
gone_differs (none_now, was_seen) e = was_seen (sym e ∙ none_now)

or_true_iff :
    (a b : Bool) (P Q : Type 0) → ((a ≡ true) ↔ P) → ((b ≡ true) ↔ Q) → ((a || b) ≡ true) ↔ (P ⊎ Q)
or_true_iff true b P Q (p, p') (q, q') = (λ h. inl (p refl), λ h. refl)
or_true_iff false b P Q (p, p') (q, q') =
    (λ h. inr (q h), λ h. elim h [ inl x ↦ cc (p' x) | inr y ↦ q' y ])

module _ (is_socket_addr : Text → Bool) (o : Outside) (disk : Text → Fingerprint)
    (source : ReloadSource) where
  -- One tick, where nothing changes on disk: it always finds the same.
  abbrev pub tick : WatchState → Bool × WatchState
  tick w = watch_tick is_socket_addr o disk source w

  abbrev pub config_now : Fingerprint
  config_now = fingerprint_of disk (file_path source)

  abbrev pub token_now : WatchState → Fingerprint
  token_now w = fingerprint_of_token disk w.state

  tick_iff :
      (w : WatchState)
      → ((tick w).0 ≡ true) ↔ ((config_now ≢ w.config_seen) ⊎ (token_now w ≢ w.token_seen))
  unfolding watch_tick
  tick_iff w =
      or_true_iff _ _ _ _ (differs_iff config_now w.config_seen)
        (differs_iff (token_now w) w.token_seen)

  -- The second tick.
  second_iff :
      (w : WatchState)
      → ((tick (tick w).1).0 ≡ true)
        ↔ (IsGone config_now w.config_seen ⊎ (token_now (tick w).1 ≢ (tick w).1.token_seen))
  unfolding watch_tick
  second_iff w =
      let (there, back) = tick_iff (tick w).1 in
      let (gone, gone') = again_iff config_now w.config_seen in
      (
        λ h. elim (there h) [ inl x ↦ inl (gone x) | inr y ↦ inr y ],
        λ h. elim h [ inl x ↦ back (inl (gone' x)) | inr y ↦ back (inr y) ],
      )

  -- A tick that does not reload leaves all as it was.
  calm : (w : WatchState) → (tick w).0 ≡ false → (tick w).1.state ≡ w.state
  unfolding watch_tick
  calm w h = rw h refl

  moved :
      (w : WatchState)
      → (tick w).0 ≡ true
      → (tick w).1.state ≡ reload is_socket_addr o source w.state
  unfolding watch_tick
  moved w h = rw h refl

  -- Where the first tick does not reload, the second does not.
  calm_twice : (w : WatchState) → (tick w).0 ≡ false → (tick (tick w).1).0 ≢ true
  unfolding watch_tick
  calm_twice w h again =
      let (_, first) = tick_iff w in
      elim ((second_iff w).0 again) [
        | inl gone ↦ cc (h, first (inl (gone_differs gone)))
        | inr other ↦
            let same = ap (fingerprint_of_token disk) (calm w h) in
            let gone =
              (again_iff (token_now w) w.token_seen).0
                (subst (λ p. p ≢ or_seen (token_now w) w.token_seen) same other) in
            cc (h, first (inr (gone_differs gone)))
      ]

  -- The token file is the same from the second tick on.
  settled : (w : WatchState) → token_now (tick (tick w).1).1 ≡ token_now (tick w).1
  settled w = elim (Bool-cases (tick (tick w).1).0) [
    | inr e ↦ ap (fingerprint_of_token disk) (calm (tick w).1 e)
    | inl e ↦ elim (Bool-cases (tick w).0) [
      | inr f ↦ absurd (calm_twice w f e)
      | inl f ↦
          let once = moved w f in
          let twice = moved (tick w).1 e ∙ ap (reload is_socket_addr o source) once in
          ap (fingerprint_of_token disk) twice
          ∙ ap (λ (c : Config). fingerprint_of disk c.security.token_file)
              (reload_again is_socket_addr o source w.state)
          ∙ ap (fingerprint_of_token disk) (sym once)
    ]
  ]

  third_iff :
      (w : WatchState)
      → ((tick (tick (tick w).1).1).0 ≡ true)
        ↔ (IsGone config_now w.config_seen ⊎ IsGone (token_now (tick w).1) (tick w).1.token_seen)
  unfolding watch_tick
  third_iff w =
      let (there, back) = second_iff (tick w).1 in
      let (gone, gone') = IsGone-or_seen config_now w.config_seen in
      let seen = or_seen (token_now (tick w).1) (tick w).1.token_seen in
      let (lost, lost') = again_iff (token_now (tick w).1) (tick w).1.token_seen in
      (
        λ h. elim (there h) [
          | inl x ↦ inl (gone x)
          | inr y ↦ inr (lost (subst (λ p. p ≢ seen) (settled w) y))
        ],
        λ h. elim h [
          | inl x ↦ back (inl (gone' x))
          | inr y ↦ back (inr (subst (λ p. p ≢ seen) (sym (settled w)) (lost' y)))
        ],
      )

  -- Where every tick finds the same files, the watch settles. The second tick reloads exactly when the
  -- configuration file was seen before and cannot be read, or the fingerprint of the token file that is
  -- then configured differs from the last one seen, as it may where the first tick's reload named
  -- another token file. The third tick reloads exactly when the configuration file was seen before and
  -- cannot be read, or a token file was seen before and the configured one cannot be read.
  pub watch_tick_settles :
      (w : WatchState)
      → (((tick (tick w).1).0 ≡ true)
          ↔ (IsGone config_now w.config_seen ⊎ (token_now (tick w).1 ≢ (tick w).1.token_seen)))
        × (((tick (tick (tick w).1).1).0 ≡ true) ↔ (
            IsGone config_now w.config_seen ⊎ IsGone (token_now (tick w).1) (tick w).1.token_seen))
  watch_tick_settles w = (second_iff w, third_iff w)
