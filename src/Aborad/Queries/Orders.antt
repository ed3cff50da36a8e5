-- ===== src/Aborad/Queries/Orders.antt =====
-- The query parameters of the service list: their order does not matter.
use abora_framework.Common.{
  ℕ, ◌≡◌, ◌≢◌, refl, sym, ap, subst, ◌∙◌, arith, true, List, [], ◌∷◌, Option, none, some, Result,
  ok, err, >>=-eq-ok, Text, codes, text_eq, text_eq_iff, All, Shuffled, nil, keep, swap, then_,
  All-Shuffled, Bool-cases, inl, inr,
}
use Prim.Native.String.{String}
use abora_framework.Api.{ApiErrorDetail}
use abora_framework.Services.{ServiceQuery, default_query}
use abora_framework.Aborad.Queries.{
  Setting, set_state, set_enabled, set_text, set_limit, set_offset, put, state_setting,
  enabled_setting, limit_of, offset_of, setting_of, read_params, parse_service_query,
}

setting_key : Setting → Text
setting_key (set_state s) = codes "state"
setting_key (set_enabled b) = codes "enabled"
setting_key (set_text t) = codes "q"
setting_key (set_limit n) = codes "limit"
setting_key (set_offset n) = codes "offset"

key_or_q : Result Setting ApiErrorDetail → Text
unfolding setting_key
key_or_q (ok s) = setting_key s
key_or_q (err e) = codes "q"

-- Assignments to different parameters commute.
put-put :
    (a b : Setting) (query : ServiceQuery)
    → setting_key a ≢ setting_key b
    → put b (put a query) ≡ put a (put b query)
unfolding setting_key
put-put (set_state s) (set_state s') query h = absurd (h refl)
put-put (set_state s) (set_enabled b) query h = refl
put-put (set_state s) (set_text t) query h = refl
put-put (set_state s) (set_limit n) query h = refl
put-put (set_state s) (set_offset m) query h = refl
put-put (set_enabled b) (set_state s) query h = refl
put-put (set_enabled b) (set_enabled b') query h = absurd (h refl)
put-put (set_enabled b) (set_text t) query h = refl
put-put (set_enabled b) (set_limit n) query h = refl
put-put (set_enabled b) (set_offset m) query h = refl
put-put (set_text t) (set_state s) query h = refl
put-put (set_text t) (set_enabled b) query h = refl
put-put (set_text t) (set_text t') query h = absurd (h refl)
put-put (set_text t) (set_limit n) query h = refl
put-put (set_text t) (set_offset m) query h = refl
put-put (set_limit n) (set_state s) query h = refl
put-put (set_limit n) (set_enabled b) query h = refl
put-put (set_limit n) (set_text t) query h = refl
put-put (set_limit n) (set_limit n') query h = absurd (h refl)
put-put (set_limit n) (set_offset m) query h = refl
put-put (set_offset m) (set_state s) query h = refl
put-put (set_offset m) (set_enabled b) query h = refl
put-put (set_offset m) (set_text t) query h = refl
put-put (set_offset m) (set_limit n) query h = refl
put-put (set_offset m) (set_offset m') query h = absurd (h refl)

state_setting-key :
    (value : Text) (s : Setting) → state_setting value ≡ ok s → setting_key s ≡ codes "state"
unfolding state_setting setting_key
state_setting-key value s h = ground (arith, h)

enabled_setting-key :
    (value : Text) (s : Setting) → enabled_setting value ≡ ok s → setting_key s ≡ codes "enabled"
unfolding enabled_setting setting_key
enabled_setting-key value s h = ground (arith, h)

limit_of-key : (o : Option ℕ) (s : Setting) → limit_of o ≡ ok s → setting_key s ≡ codes "limit"
unfolding setting_key
limit_of-key none s h = cc
limit_of-key (some n) s h = ground (arith, h)

offset_of-key : (o : Option ℕ) (s : Setting) → offset_of o ≡ ok s → setting_key s ≡ codes "offset"
unfolding setting_key
offset_of-key none s h = cc
offset_of-key (some n) s h = ground (arith, h)

-- A parameter assigns what its name says.
setting_of-key :
    (key value : Text) (s : Setting) → setting_of key value ≡ ok s → key ≡ setting_key s
unfolding setting_of setting_key key_or_q
setting_of-key key value s h = elim (Bool-cases (text_eq key (codes "state"))) [
  | inl e ↦ named "state" e ∙ sym (state_setting-key value s (rw e at h))
  | inr e ↦ elim (Bool-cases (text_eq key (codes "enabled"))) [
    | inl f ↦ named "enabled" f ∙ sym (enabled_setting-key value s (rw (e, f) at h))
    | inr f ↦ elim (Bool-cases (text_eq key (codes "q"))) [
      | inl g ↦ named "q" g ∙ text_key (rw (e, f, g) at h)
      | inr g ↦ elim (Bool-cases (text_eq key (codes "limit"))) [
        | inl l ↦ named "limit" l ∙ sym (limit_of-key _ s (rw (e, f, g, l) at h))
        | inr l ↦ elim (Bool-cases (text_eq key (codes "offset"))) [
          | inl o ↦ named "offset" o ∙ sym (offset_of-key _ s (rw (e, f, g, l, o) at h))
          | inr o ↦ cc (rw (e, f, g, l, o) at h)
        ]
      ]
    ]
  ]
]
  where
    named : (name : String) → text_eq key (codes name) ≡ true → key ≡ codes name
    named name e = (text_eq_iff key (codes name)).0 e

    text_key :
        ◌≡◌ {A = Result Setting ApiErrorDetail} (ok (set_text value)) (ok s)
        → codes "q" ≡ setting_key s
    text_key same = ap key_or_q same

-- The entries of a map have different keys.
abbrev pub HasDistinctKeys : List (Text × Text) → Type 0
HasDistinctKeys [] = Unit
HasDistinctKeys ((k, v) ∷ params) = All (λ p. k ≢ p.0) params × HasDistinctKeys params

HasDistinctKeys-Shuffled :
    {ps qs : List (Text × Text)} → Shuffled ps qs → HasDistinctKeys ps → HasDistinctKeys qs
HasDistinctKeys-Shuffled nil h = h
HasDistinctKeys-Shuffled (keep (k, v) s) (apart, h) =
    (All-Shuffled (λ p. k ≢ p.0) s apart, HasDistinctKeys-Shuffled s h)
HasDistinctKeys-Shuffled (swap (k, v) (l, w) xs) ((kl, k_apart), (l_apart, h)) =
    ((λ e. kl (sym e), l_apart), (k_apart, h))
HasDistinctKeys-Shuffled (then_ s t) h = HasDistinctKeys-Shuffled t (HasDistinctKeys-Shuffled s h)

read_params-Shuffled :
    {ps qs : List (Text × Text)} (query out : ServiceQuery)
    → Shuffled ps qs
    → HasDistinctKeys ps
    → read_params ps query ≡ ok out
    → read_params qs query ≡ ok out
unfolding read_params
read_params-Shuffled query out nil h e = e
read_params-Shuffled query out (keep (k, v) s) (apart, h) e =
    let (setting, assigned, rest) = >>=-eq-ok (setting_of k v) _ e in
    rw assigned (read_params-Shuffled (put setting query) out s h rest)
read_params-Shuffled query out (swap (k, v) (l, w) xs) ((kl, k_apart), h) e =
    let (a, first, rest) = >>=-eq-ok (setting_of k v) _ e in
    let (b, second, last) = >>=-eq-ok (setting_of l w) _ rest in
    let differ : setting_key a ≢ setting_key b =
      λ same. kl (setting_of-key k v a first ∙ (same ∙ sym (setting_of-key l w b second))) in
    rw (second, first) (subst (λ q. read_params xs q ≡ ok out) (put-put a b query differ) last)
read_params-Shuffled query out (then_ s t) h e =
    read_params-Shuffled query out t (HasDistinctKeys-Shuffled s h)
      (read_params-Shuffled query out s h e)

-- An accepted query does not depend on the order in which the map of its parameters is read: in any
-- other order it is accepted too, with the same result. The parameters of a map have different names.
pub parse_service_query-Shuffled :
    (ps qs : List (Text × Text)) (query : ServiceQuery)
    → Shuffled ps qs
    → HasDistinctKeys ps
    → parse_service_query ps ≡ ok query
    → parse_service_query qs ≡ ok query
unfolding parse_service_query
parse_service_query-Shuffled ps qs query s h e = read_params-Shuffled default_query query s h e
