-- ===== src/Update/Host/RoundTrip.antt =====
-- Lines of the form that the comment on `parse_simulation` shows, written and read back.
use abora_framework.Common.{
  ℕ, ◌≡◌, ◌≢◌, refl, ◌∙◌, ap, arith, true, false, List, [], ◌∷◌, ◌++◌, append_assoc, Option, none,
  some, All, All-append, all, Text, codes, Lacks, is_empty, split_once-append, strip_return, lines,
  ne_of_test, Lacks-by, lines-append, &&-eq-true, sym,
}
use mathlib.Core.List.{filter_map, filter_map-cons-some}
use abora_framework.Update.Host.{
  PackageUpgrade, is_name_char, valid_package_name, parse_from, cut_or_all, before_or_all,
  parse_target, parse_inst_line, parse_simulation,
}
use abora_framework.Update.Host.Simulation.{IsAcceptable}

abbrev render_from : Option Text → Text
render_from none = []
render_from (some from) = b'[' ∷ (from ++ codes "] ")

-- The line of an upgrade, and the markers that may follow it.
pub render : PackageUpgrade → Text → Text
render u markers =
    codes "Inst "
    ++ (u.name
        ++ (b' '
            ∷ (render_from u.from ++ (b'(' ∷ (u.to ++ (b' ' ∷ (u.source ++ (b')' ∷ markers))))))))

pub render_all : List (PackageUpgrade × Text) → Text
unfolding render
render_all [] = []
render_all ((u, markers) ∷ us) = render u markers ++ b'\n' ∷ render_all us

abbrev pub BracketFree : Option Text → Type 0
BracketFree none = Unit
BracketFree (some from) = Lacks b']' from × Lacks b'\n' from

-- An upgrade whose parts cannot be mistaken for the marks round them.
pub record IsPrintable (u : PackageUpgrade) : Type 0 where
  pub acceptable : IsAcceptable u
  pub from_plain : BracketFree u.from
  pub to_spaceless : Lacks b' ' u.to
  pub to_plain : Lacks b')' u.to × Lacks b'\n' u.to
  pub source_plain : Lacks b')' u.source × Lacks b'\n' u.source

valid_name-Lacks :
    (d : ℕ) (name : Text) → is_name_char d ≡ false → valid_package_name name ≡ true → Lacks d name
unfolding valid_package_name
valid_name-Lacks d name h v = go name (ground arith)
  where
    go : (s : Text) → all is_name_char s ≡ true → Lacks d s
    go [] k = tt
    go (c ∷ s) k = (λ e. cc (rw e at (&&-eq-true (is_name_char c) _ k).0), go s (ground arith))

before_or_all-append : (d : ℕ) (s t : Text) → Lacks d s → before_or_all d (s ++ d ∷ t) ≡ s
before_or_all-append d s t h = rw (split_once-append d s t h, before_or_all)

cut_or_all-append : (d : ℕ) (s t : Text) → Lacks d s → cut_or_all d (s ++ d ∷ t) ≡ (s, t)
cut_or_all-append d s t h = rw (split_once-append d s t h, cut_or_all)

is_empty_of_ne : (s : Text) → s ≢ [] → is_empty s ≡ false
is_empty_of_ne [] h = absurd (h refl)
is_empty_of_ne (c ∷ s) h = refl

parse_from-render_from :
    (from : Option Text) (rest : Text)
    → BracketFree from
    → parse_from (render_from from ++ (b'(' ∷ rest)) ≡ some (from, b'(' ∷ rest)
unfolding parse_from
parse_from-render_from none rest h = refl
parse_from-render_from (some from) rest (h, _) =
    rw (append_assoc from (codes "] ") (b'(' ∷ rest))
      (rw (split_once-append b']' from (b' ' ∷ b'(' ∷ rest) h))

parse_target-render :
    (u : PackageUpgrade) (markers : Text)
    → IsPrintable u
    → parse_target u.name u.from (b'(' ∷ (u.to ++ (b' ' ∷ (u.source ++ (b')' ∷ markers))))) ≡ some u
unfolding parse_target
parse_target-render u markers p =
    let inner = u.to ++ b' ' ∷ u.source in
    let inner_plain =
      All-append _ u.to _ p.to_plain.0 (ne_of_test b' ' b')' refl, p.source_plain.0) in
    rw (sym (append_assoc u.to (b' ' ∷ u.source) (b')' ∷ markers))) (
      rw (before_or_all-append b')' inner markers inner_plain) (
        rw (cut_or_all-append b' ' u.to u.source p.to_spaceless)
          (rw (is_empty_of_ne u.to p.acceptable.to_given))))

parse_inst_line-render :
    (u : PackageUpgrade) (markers : Text)
    → IsPrintable u
    → parse_inst_line (render u markers) ≡ some u
unfolding parse_inst_line render
parse_inst_line-render u markers p =
    let spaceless = valid_name-Lacks b' ' u.name refl p.acceptable.name_valid in
    rw (split_once-append b' ' u.name _ spaceless) (
      rw p.acceptable.name_valid
        (rw (parse_from-render_from u.from _ p.from_plain) (parse_target-render u markers p)))

Lacks-render_from : (from : Option Text) → BracketFree from → Lacks b'\n' (render_from from)
Lacks-render_from none h = tt
Lacks-render_from (some from) (_, h) =
    (ne_of_test b'[' b'\n' refl, All-append _ from _ h (Lacks-by b'\n' (codes "] ") refl))

render-Lacks :
    (u : PackageUpgrade) (markers : Text)
    → IsPrintable u
    → Lacks b'\n' markers
    → Lacks b'\n' (render u markers)
unfolding render
render-Lacks u markers p m =
    let name = valid_name-Lacks b'\n' u.name refl p.acceptable.name_valid in
    let space = ne_of_test b' ' b'\n' refl in
    let tail = All-append _ u.source _ p.source_plain.1 (ne_of_test b')' b'\n' refl, m) in
    let target = All-append _ u.to _ p.to_plain.1 (space, tail) in
    let from =
      All-append _ (render_from u.from) _ (Lacks-render_from u.from p.from_plain)
        (ne_of_test b'(' b'\n' refl, target) in
    All-append _ (codes "Inst ") _ (Lacks-by b'\n' (codes "Inst ") refl)
      (All-append _ u.name _ name (space, from))

strip_return-append : (s t : Text) → strip_return (s ++ b')' ∷ t) ≡ s ++ b')' ∷ strip_return t
strip_return-append [] [] = refl
strip_return-append [] (c ∷ t) = refl
strip_return-append (d ∷ []) t = ap (◌∷◌ d) (strip_return-append [] t)
strip_return-append (d ∷ e ∷ s) t = ap (◌∷◌ d) (strip_return-append (e ∷ s) t)

-- the line of an upgrade, up to its closing parenthesis
before_end : PackageUpgrade → Text
before_end u =
    codes "Inst "
    ++ (u.name ++ (b' ' ∷ (render_from u.from ++ (b'(' ∷ (u.to ++ (b' ' ∷ u.source))))))

render_ends : (u : PackageUpgrade) (m : Text) → render u m ≡ before_end u ++ b')' ∷ m
unfolding render before_end
render_ends u m = simp append_assoc

strip_return-render :
    (u : PackageUpgrade) (m : Text) → strip_return (render u m) ≡ render u (strip_return m)
strip_return-render u m =
    ap strip_return (render_ends u m)
    ∙ strip_return-append (before_end u) m
    ∙ sym (render_ends u (strip_return m))

filter_map-lines :
    (u : PackageUpgrade) (markers rest : Text)
    → IsPrintable u
    → Lacks b'\n' markers
    → filter_map parse_inst_line (lines (render u markers ++ b'\n' ∷ rest))
      ≡ u ∷ filter_map parse_inst_line (lines rest)
filter_map-lines u markers rest p m =
    ap (filter_map parse_inst_line) (
      lines-append (render u markers) rest (render-Lacks u markers p m)
      ∙ ap (λ s. s ∷ lines rest) (strip_return-render u markers))
    ∙ filter_map-cons-some parse_inst_line (render u (strip_return markers)) (lines rest)
        (parse_inst_line-render u (strip_return markers) p)

abbrev pub IsLine : PackageUpgrade × Text → Type 0
IsLine (u, markers) = IsPrintable u × Lacks b'\n' markers

abbrev pub upgrades_of : List (PackageUpgrade × Text) → List PackageUpgrade
upgrades_of [] = []
upgrades_of ((u, markers) ∷ us) = u ∷ upgrades_of us

-- Upgrades written a line each, in the form `Inst name [from] (to source)` with any markers after it,
-- read back to the same upgrades. Each has a valid name and some version `to`; `from` has no `]`, `to`
-- no space and no `)`, `source` no `)`, and nothing has a line feed.
pub parse_simulation-render_all :
    (us : List (PackageUpgrade × Text))
    → All IsLine us
    → parse_simulation (render_all us) ≡ upgrades_of us
unfolding parse_simulation render_all
parse_simulation-render_all [] h = refl
parse_simulation-render_all ((u, markers) ∷ us) ((p, m), h) =
    filter_map-lines u markers (render_all us) p m ∙ ap (◌∷◌ u) (parse_simulation-render_all us h)
