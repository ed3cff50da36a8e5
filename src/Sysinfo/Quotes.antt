-- ===== src/Sysinfo/Quotes.antt =====
-- Quoted values of os-release in crates/abora-sysinfo/src/linux.rs read back.
use abora_framework.Common.{
  ℕ, ◌+◌, ◌≡◌, refl, ap, ◌∙◌, arith, true, false, ◌||◌, ◌==◌, leb, le→leb, [], ◌∷◌, ◌++◌, Text,
  codes, ends_with, ends_with-append, len, Bool-cases, inl, inr, if◌then◌else◌,
}
use abora_framework.Sysinfo.{unescape, but_last, unquote}

-- A backslash stands before each quote and each backslash.
abbrev pub escape : Text → Text
escape [] = []
escape (c ∷ s) = if c == b'"' || c == b'\\' then b'\\' ∷ c ∷ escape s else c ∷ escape s

-- How a value is written in os-release.
abbrev pub quote : Text → Text
quote s = b'"' ∷ (escape s ++ b'"' ∷ [])

but_last-append : (s : Text) (c : ℕ) → but_last (s ++ c ∷ []) ≡ s
but_last-append [] c = refl
but_last-append (d ∷ []) c = refl
but_last-append (d ∷ e ∷ s) c = ap (◌∷◌ d) (but_last-append (e ∷ s) c)

-- A character that needs no escape stays.
unescape_plain : (c : ℕ) (s : Text) → (c == b'\\') ≡ false → unescape (c ∷ s) ≡ c ∷ unescape s
unfolding unescape
unescape_plain c [] h = refl
unescape_plain c (d ∷ s) h = rw (h, unescape) refl

unescape-escape : (s : Text) → unescape (escape s) ≡ s
unfolding unescape
unescape-escape [] = refl
unescape-escape (c ∷ s) = elim (Bool-cases (c == b'"' || c == b'\\')) [
  | inl e ↦ rw e (ap (◌∷◌ c) (unescape-escape s))
  | inr e ↦ rw e (unescape_plain c (escape s) (ground (arith, e)) ∙ ap (◌∷◌ c) (unescape-escape s))
]

len-append : (s t : Text) → len (s ++ t) ≡ len s + len t
len-append [] t = omega arith
len-append (c ∷ s) t = omega (arith, len-append s t)

-- A value that is written in double quotes, with a backslash before each quote and each backslash,
-- reads back as it was, whatever it contains.
pub unquote-quote : (s : Text) → unquote (quote s) ≡ s
unfolding unquote
unquote-quote s =
    let long : leb 2 (len (quote s)) ≡ true =
      le→leb 2 (len (quote s)) (omega (arith, len-append (escape s) (b'"' ∷ []))) in
    let ended : ends_with (quote s) (codes "\"") ≡ true =
      ends_with-append (b'"' ∷ escape s) (b'"' ∷ []) in
    rw (long, ended, but_last-append (escape s) b'"') (unescape-escape s)
