-- ===== src/Metrics/Escape/Lines.antt =====
-- The lines that `writeSeriesLine` of internal/metrics/metrics.go writes, read by the exposition
-- format.
use mathlib.Core.List.{append-nil, append_assoc}
use go_webapp_template.Base.{
  ◌≡◌, ◌≢◌, refl, sym, ap, ◌∙◌, Bool, true, false, some, List, [], ◌∷◌, ◌++◌, All, length,
  if◌then◌else◌, ◌>>=◌, arith,
}
use go_webapp_template.Base.Text.{Text, text, is_empty}
use go_webapp_template.Metrics.Render.{
  newline, escape_label, label_pairs, le_pair, label_set, write_series_line,
}
use go_webapp_template.Metrics.Escape.{Lacks}
use go_webapp_template.Metrics.Escape.Reader.{
  Labels, read_line, pair_text, pairs_text, HasPlainName, line_text, read_line-line_text,
  pair_text-append,
}

-- The labels of a line: those of the series, and `le` where it is there.
abbrev pub zip : List Text → List Text → Labels
zip [] values = []
zip (n ∷ names) [] = []
zip (n ∷ names) (v ∷ values) = (n, v) ∷ zip names values

abbrev pub shown : List Text → List Text → Text → Labels
shown names values le = zip names values ++ (if is_empty le then [] else (text "le", le) ∷ [])

label_pairs-pairs_text :
    (first : Bool) (names values : List Text)
    → length values ≡ length names
    → label_pairs first names values ≡ some (pairs_text first (zip names values))
unfolding label_pairs
label_pairs-pairs_text first [] values e = refl
label_pairs-pairs_text first (n ∷ names) [] e = absurd (omega arith)
label_pairs-pairs_text first (n ∷ names) (v ∷ values) e =
    rw (label_pairs-pairs_text false names values (omega arith)) refl

pairs_text-snoc :
    (ps : Labels) (q : Text × Text)
    → pairs_text false (ps ++ q ∷ []) ≡ pairs_text false ps ++ (b',' ∷ pair_text q [])
pairs_text-snoc [] q = refl
pairs_text-snoc (p ∷ ps) q =
    ap (λ t. b',' ∷ t)
      (ap (pair_text p) (pairs_text-snoc ps q)
        ∙ sym (pair_text-append p (pairs_text false ps) (b',' ∷ pair_text q [])))

-- A text that the escaping leaves as it is.
abbrev pub IsClean : Text → Type 0
IsClean s = escape_label s ≡ s

-- The label set is its brackets round the labels that are shown.
label_set-pairs_text :
    (names values : List Text) (le : Text)
    → length values ≡ length names
    → IsClean le
    → shown names values le ≢ []
    → label_set names values le
      ≡ some (b'{' ∷ (pairs_text true (shown names values le) ++ b'}' ∷ []))
unfolding label_set le_pair
label_set-pairs_text [] (v ∷ values) le same clean some_label = absurd (omega arith)
label_set-pairs_text [] [] [] same clean some_label = absurd (some_label refl)
label_set-pairs_text [] [] (c ∷ le) same clean some_label = rw clean (simp append_assoc)
label_set-pairs_text (n ∷ names) [] le same clean some_label = absurd (omega arith)
label_set-pairs_text (n ∷ names) (v ∷ values) [] same clean some_label =
    rw (label_pairs-pairs_text true (n ∷ names) (v ∷ values) same)
      (rw (append-nil (zip names values)) refl)
label_set-pairs_text (n ∷ names) (v ∷ values) (c ∷ le) same clean some_label =
    rw (label_pairs-pairs_text true (n ∷ names) (v ∷ values) same)
      (rw (pairs_text-snoc (zip names values) (text "le", c ∷ le), clean) (simp append_assoc))

label_set-nil :
    (names values : List Text) (le : Text)
    → length values ≡ length names
    → shown names values le ≡ []
    → label_set names values le ≡ some []
unfolding label_set
label_set-nil [] values [] same none_shown = refl
label_set-nil [] [] (c ∷ le) same none_shown = cc
label_set-nil [] (v ∷ values) (c ∷ le) same none_shown = absurd (omega arith)
label_set-nil (n ∷ names) [] le same none_shown = absurd (omega arith)
label_set-nil (n ∷ names) (v ∷ values) le same none_shown = cc

shown-All :
    (names values : List Text) (le : Text)
    → All (Lacks b'=') names
    → All (Lacks newline) names
    → All HasPlainName (shown names values le)
unfolding text
shown-All [] values [] h k = tt
shown-All [] values (c ∷ le) h k = ground arith
shown-All (n ∷ names) [] [] h k = tt
shown-All (n ∷ names) [] (c ∷ le) h k = ground arith
shown-All (n ∷ names) (v ∷ values) le (h, hs) (k, ks) = ((h, k), shown-All names values le hs ks)

write_series_line-line_text :
    (name : Text) (names values : List Text) (le v : Text) (labels : Labels)
    → length values ≡ length names
    → IsClean le
    → shown names values le ≡ labels
    → write_series_line name names values le v ≡ some (line_text name labels v)
unfolding write_series_line
write_series_line-line_text name names values le v [] same clean e =
    rw (label_set-nil names values le same e) refl
write_series_line-line_text name names values le v (p ∷ ps) same clean e =
    rw (label_set-pairs_text names values le same clean (λ n. cc (e, n)), e) (simp append_assoc)

-- Whatever bytes the label values of a series hold, as many as there are names: `writeSeriesLine`
-- writes a line, and a scraper reads back from it the name, every label with its value, the label
-- `le` if it is given, and the number. The name holds no brace, space or line break, the label
-- names no equals sign or line break, `le` nothing to escape, and the number no line break. The
-- reader takes no line break but the one at the end.
pub read_line-write_series_line :
    (name : Text) (names values : List Text) (le v : Text)
    → Lacks b'{' name
    → Lacks b' ' name
    → Lacks newline name
    → All (Lacks b'=') names
    → All (Lacks newline) names
    → length values ≡ length names
    → IsClean le
    → Lacks newline v
    → (write_series_line name names values le v >>= read_line)
      ≡ some (name, shown names values le, v)
read_line-write_series_line name names values le v brace space broken plain whole same clean one =
    let labels = shown names values le in
    rw (write_series_line-line_text name names values le v labels same clean refl) (
      read_line-line_text name v labels brace space broken (shown-All names values le plain whole)
        one)
