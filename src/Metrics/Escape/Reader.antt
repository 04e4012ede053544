-- ===== src/Metrics/Escape/Reader.antt =====
-- A reader of the lines of the exposition format that internal/metrics/metrics.go writes.
use mathlib.Core.List.{append_assoc}
use go_webapp_template.Base.{
  ℕ, zero, suc, ◌≤◌, ◌<◌, ◌≡◌, refl, Bool, true, false, ◌||◌, Option, none, some, List, [], ◌∷◌,
  ◌++◌, All, length, length-append, ◌==◌, if◌then◌else◌, ◌>>=◌, arith,
}
use go_webapp_template.Base.Text.{Text}
use go_webapp_template.Metrics.Render.{quote, newline, escape_label}
use go_webapp_template.Metrics.Escape.{Lacks, push, read_value, read_value-escape_label}

abbrev pub Labels : Type 0
Labels = List (Text × Text)

-- A reader of one line: the name, the labels, and the value. No part of it may hold a line break.
unfoldable read_until : ℕ → Text → Option (Text × Text)
read_until b [] = none
read_until b (c ∷ s) =
    let more = push c (read_until b s) in
    if c == b then some ([], s) else if c == newline then none else more

unfoldable read_name : Text → Option (Text × Text)
read_name [] = none
read_name (c ∷ s) =
    let more = push c (read_name s) in
    if c == b'{' || c == b' ' then some ([], c ∷ s) else if c == newline then none else more

unfoldable read_quoted : Text → Option (Text × Text)
unfolding read_value
read_quoted [] = none
read_quoted (c ∷ s) = if c == quote then read_value false s else none

abbrev add_pair : Text × Text → Option (Labels × Text) → Option (Labels × Text)
add_pair p none = none
add_pair p (some (ps, rest)) = some (p ∷ ps, rest)

-- What follows a label: a comma and more, or the end of the set.
unfoldable after_pair :
    (Text → Option (Labels × Text)) → Text × Text → Text → Option (Labels × Text)
after_pair more p [] = none
after_pair more p (c ∷ s) =
    if c == b'}' then some (p ∷ [], s) else if c == b',' then add_pair p (more s) else none

unfoldable read_pairs : ℕ → Text → Option (Labels × Text)
unfolding read_until read_quoted after_pair
read_pairs zero s = none
read_pairs (suc rounds) s = do
  (n, s') ← read_until b'=' s
  (v, s'') ← read_quoted s'
  after_pair (read_pairs rounds) (n, v) s''

unfoldable read_labels : Text → Option (Labels × Text)
unfolding read_pairs
read_labels [] = none
read_labels (c ∷ s) = if c == b'{' then read_pairs (length s) s else some ([], c ∷ s)

abbrev whole : Option (Text × Text) → Option Text
whole none = none
whole (some (v, [])) = some v
whole (some (v, c ∷ s)) = none

unfoldable read_sample : Text → Option Text
unfolding read_until
read_sample [] = none
read_sample (c ∷ s) = if c == b' ' then whole (read_until newline s) else none

unfoldable pub read_line : Text → Option (Text × Labels × Text)
unfolding read_name read_labels read_sample
read_line s = do
  (name, s') ← read_name s
  (labels, s'') ← read_labels s'
  v ← read_sample s''
  some (name, labels, v)

read_until-append :
    (b : ℕ) (s rest : Text)
    → Lacks b s
    → Lacks newline s
    → read_until b (s ++ b ∷ rest) ≡ some (s, rest)
unfolding read_until
read_until-append b [] rest h k = ground arith
read_until-append b (c ∷ s) rest (h, hs) (k, ks) = ground (arith, read_until-append b s rest hs ks)

read_name-append :
    (s rest : Text) (d : ℕ)
    → Lacks b'{' s
    → Lacks b' ' s
    → Lacks newline s
    → (d == b'{' || d == b' ') ≡ true
    → read_name (s ++ d ∷ rest) ≡ some (s, d ∷ rest)
unfolding read_name
read_name-append [] rest d h k l e = rw e
read_name-append (c ∷ s) rest d (h, hs) (k, ks) (l, ls) e =
    ground (arith, read_name-append s rest d hs ks ls e)

-- The text of a set of labels.
abbrev pub pair_text : Text × Text → Text → Text
pair_text (n, v) rest = n ++ (b'=' ∷ quote ∷ (escape_label v ++ (quote ∷ rest)))

abbrev pub pairs_text : Bool → Labels → Text
pairs_text first [] = []
pairs_text first (p ∷ ps) =
    let pair = pair_text p (pairs_text false ps) in if first then pair else b',' ∷ pair

pub pair_text-append :
    (p : Text × Text) (s rest : Text) → pair_text p s ++ rest ≡ pair_text p (s ++ rest)
pair_text-append (n, v) s rest = simp (append_assoc)

abbrev pub HasPlainName : Text × Text → Type 0
HasPlainName (n, v) = Lacks b'=' n × Lacks newline n

read_one :
    (rounds : ℕ) (p : Text × Text) (s : Text)
    → HasPlainName p
    → read_pairs (suc rounds) (pair_text p s) ≡ after_pair (read_pairs rounds) p s
unfolding read_pairs read_quoted
read_one rounds (n, v) s plain =
    rw (read_until-append b'=' n (quote ∷ (escape_label v ++ (quote ∷ s))) plain.0 plain.1)
      (rw (read_value-escape_label v s) refl)

after_comma :
    (more : Text → Option (Labels × Text)) (p : Text × Text) (s : Text)
    → after_pair more p (b',' ∷ s) ≡ add_pair p (more s)
unfolding after_pair
after_comma more p s = refl

read_pairs-pairs_text :
    (rounds : ℕ) (p : Text × Text) (ps : Labels) (rest : Text)
    → length ps < rounds
    → All HasPlainName (p ∷ ps)
    → read_pairs rounds (pairs_text true (p ∷ ps) ++ b'}' ∷ rest) ≡ some (p ∷ ps, rest)
read_pairs-pairs_text zero p ps rest lt plain = absurd (omega arith)
read_pairs-pairs_text (suc rounds) p [] rest lt plain =
    rw (pair_text-append p [] (b'}' ∷ rest), read_one rounds p (b'}' ∷ rest) plain.0)
      (unfold after_pair in refl)
read_pairs-pairs_text (suc rounds) p (q ∷ ps) rest lt (plain, more) =
    let ih = read_pairs-pairs_text rounds q ps rest (omega arith) more in
    let tail = b',' ∷ (pair_text q (pairs_text false ps) ++ b'}' ∷ rest) in
    rw
      (
        pair_text-append p (b',' ∷ pair_text q (pairs_text false ps)) (b'}' ∷ rest),
        read_one rounds p tail plain,
      )
      (rw (after_comma (read_pairs rounds) p (pair_text q (pairs_text false ps) ++ b'}' ∷ rest), ih)
        refl)

-- A label set has at least as many bytes as labels.
length-pairs_text-le : (first : Bool) (ps : Labels) → length ps ≤ length (pairs_text first ps)
length-pairs_text-le first [] = omega arith
length-pairs_text-le true ((n, v) ∷ ps) = omega (
  arith,
  length-append {0} n (b'=' ∷ quote ∷ (escape_label v ++ (quote ∷ pairs_text false ps))),
  length-append {0} (escape_label v) (quote ∷ pairs_text false ps),
  length-pairs_text-le false ps,
)
length-pairs_text-le false ((n, v) ∷ ps) = omega (
  arith,
  length-append {0} n (b'=' ∷ quote ∷ (escape_label v ++ (quote ∷ pairs_text false ps))),
  length-append {0} (escape_label v) (quote ∷ pairs_text false ps),
  length-pairs_text-le false ps,
)

read_sample-append :
    (v : Text) → Lacks newline v → read_sample (b' ' ∷ (v ++ (newline ∷ []))) ≡ some v
unfolding read_sample
read_sample-append v h = rw (read_until-append newline v [] h h) refl

read_labels-pairs_text :
    (p : Text × Text) (ps : Labels) (rest : Text)
    → All HasPlainName (p ∷ ps)
    → read_labels (b'{' ∷ (pairs_text true (p ∷ ps) ++ b'}' ∷ rest)) ≡ some (p ∷ ps, rest)
unfolding read_labels
read_labels-pairs_text p ps rest plain =
    read_pairs-pairs_text (length (pairs_text true (p ∷ ps) ++ b'}' ∷ rest)) p ps rest
      (omega (
        arith,
        length-pairs_text-le true (p ∷ ps),
        length-append {0} (pairs_text true (p ∷ ps)) (b'}' ∷ rest),
      ))
      plain

-- The text of a line whose labels are given.
abbrev pub line_text : Text → Labels → Text → Text
line_text name [] v = name ++ (b' ' ∷ (v ++ (newline ∷ [])))
line_text name (p ∷ ps) v =
    name ++ (b'{' ∷ (pairs_text true (p ∷ ps) ++ b'}' ∷ (b' ' ∷ (v ++ (newline ∷ [])))))

pub read_line-line_text :
    (name v : Text) (labels : Labels)
    → Lacks b'{' name
    → Lacks b' ' name
    → Lacks newline name
    → All HasPlainName labels
    → Lacks newline v
    → read_line (line_text name labels v) ≡ some (name, labels, v)
unfolding read_line
read_line-line_text name v [] brace space broken plain one =
    rw (read_name-append name (v ++ (newline ∷ [])) b' ' brace space broken refl)
      (unfold read_labels in rw (read_sample-append v one) refl)
read_line-line_text name v (p ∷ ps) brace space broken plain one =
    let end = b' ' ∷ (v ++ (newline ∷ [])) in
    rw (read_name-append name (pairs_text true (p ∷ ps) ++ b'}' ∷ end) b'{' brace space broken refl)
      (rw (read_labels-pairs_text p ps end plain) (rw (read_sample-append v one) refl))
