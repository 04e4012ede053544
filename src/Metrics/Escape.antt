-- ===== src/Metrics/Escape.antt =====
-- What the escaping of label values in internal/metrics/metrics.go is for: nothing that a client
-- sends can end a label or a line, and a scraper reads the value back.
pub mod Reader
pub mod Lines
use mathlib.Core.List.{flat_map, append-nil, append_assoc}
use go_webapp_template.Base.{
  ℕ, ◌≡◌, ◌≢◌, refl, ◌∙◌, Bool, true, false, Option, none, some, List, [], ◌∷◌, ◌++◌, All, ◌==◌,
  if◌then◌else◌, arith,
}
use go_webapp_template.Base.Text.{Text}
use go_webapp_template.Metrics.Render.{backslash, quote, newline, escape_label_byte, escape_label}

abbrev pub Lacks : ℕ → Text → Type 0
Lacks b = All (λ c. c ≢ b)

pub Lacks-append : (b : ℕ) (s t : Text) → Lacks b s → Lacks b t → Lacks b (s ++ t)
Lacks-append b [] t hs ht = ht
Lacks-append b (c ∷ s) t (h, hs) ht = (h, Lacks-append b s t hs ht)

-- The exposition format's reading of a quoted label value: the value, and what stands behind its
-- closing quote. The flag says that the byte before was a backslash. A line break ends the line,
-- and with it the reading.
abbrev pub reveal : ℕ → ℕ
reveal c = if c == b'n' then newline else c

abbrev pub push : ℕ → Option (Text × Text) → Option (Text × Text)
push c none = none
push c (some (value, rest)) = some (c ∷ value, rest)

unfoldable pub read_value : Bool → Text → Option (Text × Text)
read_value escaped [] = none
read_value true (c ∷ s) =
    let more = push (reveal c) (read_value false s) in if c == newline then none else more
read_value false (c ∷ s) =
    let hidden = read_value true s in
    let plain = push c (read_value false s) in
    if c == newline
    then none
    else if c == quote
    then some ([], s)
    else if c == backslash
    then hidden
    else plain

read_value-escape_label_byte :
    (c : ℕ) (s : Text) → read_value false (escape_label_byte c ++ s) ≡ push c (read_value false s)
unfolding read_value escape_label_byte
read_value-escape_label_byte c s = ground arith

-- Whatever bytes a label value has, and whatever follows it in the line, a scraper reads back the
-- value and stops at the quote that the code has written behind it.
pub read_value-escape_label :
    (value rest : Text) → read_value false (escape_label value ++ quote ∷ rest) ≡ some (value, rest)
unfolding escape_label flat_map
read_value-escape_label [] rest = unfold read_value in refl
read_value-escape_label (c ∷ value) rest =
    rw
      (
        append_assoc (escape_label_byte c) (escape_label value) (quote ∷ rest),
        read_value-escape_label_byte c (escape_label value ++ quote ∷ rest),
        read_value-escape_label value rest,
      )
      refl

escape_label_byte-Lacks : (c : ℕ) → Lacks newline (escape_label_byte c)
unfolding escape_label_byte
escape_label_byte-Lacks c = ground arith

-- An escaped value holds no line break.
pub escape_label-Lacks : (value : Text) → Lacks newline (escape_label value)
unfolding escape_label flat_map
escape_label-Lacks [] = tt
escape_label-Lacks (c ∷ value) =
    Lacks-append newline (escape_label_byte c) (escape_label value) (escape_label_byte-Lacks c)
      (escape_label-Lacks value)
