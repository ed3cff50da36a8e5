-- ===== src/Common/Texts.antt =====
-- Rust's `str`, as the list of its Unicode scalar values, with the methods that the program calls.
-- `len` counts UTF-8 bytes, as Rust's does.
use Prim.Native.Nat.{ℕ, ◌+◌}
use Prim.Native.Char.{code}
use Prim.Native.String.{String}
use mathlib.Core.Path.{◌≡◌, refl, ap, ◌∙◌}
use mathlib.Core.Logic.{◌≢◌, ◌↔◌, inl, inr}
use mathlib.Core.Bool.{Bool, true, false, not, ◌&&◌, ◌||◌}
use mathlib.Core.Option.{Option, none, some}
use mathlib.Core.List.{List, [], ◌∷◌, ◌++◌}
use native.Mathlib.Omega.{arith}
use abora_framework.Common.Tests.{ltb, leb, ◌==◌, if◌then◌else◌, Bool-cases}
use abora_framework.Common.Lists.{All, all, is_empty}

abbrev pub Text : Type 0
Text = List ℕ

-- A literal's scalar values.
abbrev pub codes : String → Text
codes String.[] = []
codes (String.◌∷◌ c s) = code c ∷ codes s

abbrev pub is_ascii_digit : ℕ → Bool
is_ascii_digit c = leb b'0' c && leb c b'9'

abbrev pub is_ascii_lowercase : ℕ → Bool
is_ascii_lowercase c = leb b'a' c && leb c b'z'

abbrev pub is_ascii_uppercase : ℕ → Bool
is_ascii_uppercase c = leb b'A' c && leb c b'Z'

abbrev pub is_ascii_alphanumeric : ℕ → Bool
is_ascii_alphanumeric c = is_ascii_digit c || is_ascii_lowercase c || is_ascii_uppercase c

-- `char::is_whitespace`: the scalar values with Unicode's White_Space property.
abbrev pub is_whitespace : ℕ → Bool
is_whitespace c =
    (leb 9 c && leb c 13)
    || c == 32
    || c == 0x85
    || c == 0xa0
    || c == 0x1680
    || (leb 0x2000 c && leb c 0x200a)
    || c == 0x2028
    || c == 0x2029
    || c == 0x202f
    || c == 0x205f
    || c == 0x3000

abbrev pub utf8_len : ℕ → ℕ
utf8_len c = if ltb c 0x80 then 1 else if ltb c 0x800 then 2 else if ltb c 0x10000 then 3 else 4

-- `str::len`
abbrev pub len : Text → ℕ
len [] = 0
len (c ∷ s) = utf8_len c + len s

abbrev pub text_eq : Text → Text → Bool
text_eq [] [] = true
text_eq [] (d ∷ t) = false
text_eq (c ∷ s) [] = false
text_eq (c ∷ s) (d ∷ t) = c == d && text_eq s t

pub text_eq_iff : (s t : Text) → (text_eq s t ≡ true) ↔ (s ≡ t)
text_eq_iff [] [] = (λ _. refl, λ _. refl)
text_eq_iff [] (d ∷ t) = (λ h. cc, λ h. cc)
text_eq_iff (c ∷ s) [] = (λ h. cc, λ h. cc)
text_eq_iff (c ∷ s) (d ∷ t) =
    (λ h. ground (arith, text_eq_iff s t), λ h. ground (arith, text_eq_iff s t))

pub text_eq_refl : (s : Text) → text_eq s s ≡ true
text_eq_refl s = (text_eq_iff s s).1 refl

-- `str::starts_with`, on a text
abbrev pub starts_with : Text → Text → Bool
starts_with s [] = true
starts_with [] (d ∷ t) = false
starts_with (c ∷ s) (d ∷ t) = c == d && starts_with s t

-- `str::strip_prefix`, with the prefix first
abbrev pub strip_prefix : Text → Text → Option Text
strip_prefix [] s = some s
strip_prefix (d ∷ t) [] = none
strip_prefix (d ∷ t) (c ∷ s) = if c == d then strip_prefix t s else none

abbrev cut_before : ℕ → Option (Text × Text) → Option (Text × Text)
cut_before c none = none
cut_before c (some (a, b)) = some (c ∷ a, b)

-- `str::split_once`, at a character
abbrev pub split_once : ℕ → Text → Option (Text × Text)
split_once d [] = none
split_once d (c ∷ s) = if c == d then some ([], s) else cut_before c (split_once d s)

abbrev onto_first : ℕ → List Text → List Text
onto_first c [] = (c ∷ []) ∷ []
onto_first c (p ∷ ps) = (c ∷ p) ∷ ps

-- `str::split`, at the characters that the test accepts; never empty
abbrev pub split_by : (ℕ → Bool) → Text → List Text
split_by p [] = [] ∷ []
split_by p (c ∷ s) = let rest = split_by p s in if p c then [] ∷ rest else onto_first c rest

abbrev pub split : ℕ → Text → List Text
split d = split_by (λ c. c == d)

-- `strip_suffix('\r')`, or the whole
abbrev pub strip_return : Text → Text
strip_return [] = []
strip_return (c ∷ []) = if c == 13 then [] else c ∷ []
strip_return (c ∷ d ∷ s) = c ∷ strip_return (d ∷ s)

-- All pieces but the last ended in a line feed; an empty last piece is no line.
abbrev pub line_pieces : List Text → List Text
line_pieces [] = []
line_pieces (p ∷ []) = if is_empty p then [] else p ∷ []
line_pieces (p ∷ q ∷ ps) = strip_return p ∷ line_pieces (q ∷ ps)

-- `str::lines`
abbrev pub lines : Text → List Text
lines s = line_pieces (split b'\n' s)

abbrev pub trim_start : Text → Text
trim_start [] = []
trim_start (c ∷ s) = if is_whitespace c then trim_start s else c ∷ s

abbrev keep_end : ℕ → Text → Text
keep_end c [] = if is_whitespace c then [] else c ∷ []
keep_end c (d ∷ s) = c ∷ d ∷ s

abbrev pub trim_end : Text → Text
trim_end [] = []
trim_end (c ∷ s) = keep_end c (trim_end s)

abbrev pub trim : Text → Text
trim s = trim_start (trim_end s)

-- The character does not occur.
abbrev pub Lacks : ℕ → Text → Type 0
Lacks d = All (λ c. c ≢ d)

pub split_once-append : (d : ℕ) (s t : Text) → Lacks d s → split_once d (s ++ d ∷ t) ≡ some (s, t)
split_once-append d [] t h = ground arith
split_once-append d (c ∷ s) t (hc, h) = ground (arith, split_once-append d s t h)

pub split_once_lacking : (d : ℕ) (s : Text) → Lacks d s → split_once d s ≡ none
split_once_lacking d [] h = refl
split_once_lacking d (c ∷ s) (hc, h) = ground (arith, split_once_lacking d s h)

cut_before-eq-some :
    (c : ℕ) (o : Option (Text × Text)) {a b : Text}
    → cut_before c o ≡ some (a, b)
    → (a' : Text) × (o ≡ some (a', b)) × (a ≡ c ∷ a')
cut_before-eq-some c none h = cc
cut_before-eq-some c (some (a', b')) h = (a', ground arith, ground arith)

-- The parts of a successful cut, and that the first one lacks the character.
pub split_once_parts :
    (d : ℕ) (s : Text) {a b : Text} → split_once d s ≡ some (a, b) → (s ≡ a ++ d ∷ b) × Lacks d a
split_once_parts d [] h = cc
split_once_parts d (c ∷ s) {a} {b} h = elim (Bool-cases (c == d)) [
  | inl e ↦ ground (arith, h)
  | inr e ↦
      let (a', found, same) = cut_before-eq-some c (split_once d s) (rw e at h) in
      let (glued, lacks) = split_once_parts d s found in
      rw same (ap (◌∷◌ c) glued, (ground arith, lacks))
]

pub split_once-Lacks : (d : ℕ) (s : Text) → split_once d s ≡ none → Lacks d s
split_once-Lacks d [] h = tt
split_once-Lacks d (c ∷ s) h = ground (arith, split_once-Lacks d s)

pub split-append : (d : ℕ) (s t : Text) → Lacks d s → split d (s ++ d ∷ t) ≡ s ∷ split d t
split-append d [] t h = ground arith
split-append d (c ∷ s) t (hc, h) = ground (arith, split-append d s t h)

pub split_lacking : (d : ℕ) (s : Text) → Lacks d s → split d s ≡ s ∷ []
split_lacking d [] h = refl
split_lacking d (c ∷ s) (hc, h) = ground (arith, split_lacking d s h)

-- Differences of literals, by evaluation.
pub ne_of_test : (c d : ℕ) → (c == d) ≡ false → c ≢ d
ne_of_test c d h e = ground arith

pub Lacks-by : (d : ℕ) (s : Text) → all (λ c. not (c == d)) s ≡ true → Lacks d s
Lacks-by d [] h = tt
Lacks-by d (c ∷ s) h = (λ e. ground arith, Lacks-by d s (ground arith))

split-cons : (d : ℕ) (s : Text) → (p : Text) × (ps : List Text) × (split d s ≡ p ∷ ps)
split-cons d [] = ([], [], refl)
split-cons d (c ∷ s) = elim (Bool-cases (c == d)) [
  | inl e ↦ ([], split d s, rw e)
  | inr e ↦ let (p, ps, q) = split-cons d s in (c ∷ p, ps, rw (e, q))
]

-- A line that ends in a line feed is the first one.
pub lines-append : (s t : Text) → Lacks b'\n' s → lines (s ++ b'\n' ∷ t) ≡ strip_return s ∷ lines t
lines-append s t h =
    let (p, ps, e) = split-cons b'\n' t in ap line_pieces (split-append b'\n' s t h) ∙ rw e
