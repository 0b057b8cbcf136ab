-- ===== src/Common/Escape.antt =====
-- `escapeHtml` of internal/server/web/static/common.js.
use certguard.Base.{
  ℕ, ◌≡◌, ◌≢◌, refl, ◌∙◌, ap, false, Option, none, some, [], ◌∷◌, ◌++◌, ◌==◌, ◌||◌, if◌then◌else◌,
  arith, All, All-append,
}
use certguard.Base.Text.{Text, same}

-- `{ '&': '&amp;', … }[c]` for the five characters, and any other as it is.
unfoldable pub escape_char : ℕ → Text
escape_char c =
    if c == 38
    then 38 ∷ 97 ∷ 109 ∷ 112 ∷ 59 ∷ []
    else if c == 60
    then 38 ∷ 108 ∷ 116 ∷ 59 ∷ []
    else if c == 62
    then 38 ∷ 103 ∷ 116 ∷ 59 ∷ []
    else if c == 34
    then 38 ∷ 113 ∷ 117 ∷ 111 ∷ 116 ∷ 59 ∷ []
    else if c == 39
    then 38 ∷ 35 ∷ 51 ∷ 57 ∷ 59 ∷ []
    else c ∷ []

unfoldable pub escape_html : Text → Text
unfolding escape_char
escape_html [] = []
escape_html (c ∷ cs) = escape_char c ++ escape_html cs

-- What a browser reads for `&name;`.
abbrev reference : Text → Text
reference name =
    if same name (97 ∷ 109 ∷ 112 ∷ [])
    then 38 ∷ []
    else if same name (108 ∷ 116 ∷ [])
    then 60 ∷ []
    else if same name (103 ∷ 116 ∷ [])
    then 62 ∷ []
    else if same name (113 ∷ 117 ∷ 111 ∷ 116 ∷ [])
    then 34 ∷ []
    else if same name (35 ∷ 51 ∷ 57 ∷ [])
    then 39 ∷ []
    else 38 ∷ name ++ (59 ∷ [])

-- How character references are read in text that has no markup: the name that is being read, if any.
abbrev pub decode : Option Text → Text → Text
decode none [] = []
decode (some name) [] = 38 ∷ name
decode none (c ∷ cs) =
    let more = decode none cs in
    let started = decode (some []) cs in if c == 38 then started else c ∷ more
decode (some name) (c ∷ cs) =
    let done = decode none cs in
    let more = decode (some (name ++ (c ∷ []))) cs in
    if c == 59 then reference name ++ done else more

-- A character that may stand in element text and in a quoted attribute value.
pub record IsHarmless (c : ℕ) : Type 0 where
  pub not_less : c ≢ 60
  pub not_greater : c ≢ 62
  pub not_double : c ≢ 34
  pub not_single : c ≢ 39

data Special (c : ℕ) : Type 0 where
  amp : c ≡ 38 → Special c
  lt : c ≡ 60 → Special c
  gt : c ≡ 62 → Special c
  quot : c ≡ 34 → Special c
  apos : c ≡ 39 → Special c
  plain : escape_char c ≡ c ∷ [] → (c == 38) ≡ false → IsHarmless c → Special c

special : (c : ℕ) → Special c
unfolding escape_char
special c = ground arith

escape_char-IsHarmless : (c : ℕ) → All IsHarmless (escape_char c)
unfolding escape_char
escape_char-IsHarmless c = elim (special c) [
  | amp e ↦
      rw e (known 38 refl, (known 97 refl, (known 109 refl, (known 112 refl, (known 59 refl, tt)))))
  | lt e ↦ rw e (known 38 refl, (known 108 refl, (known 116 refl, (known 59 refl, tt))))
  | gt e ↦ rw e (known 38 refl, (known 103 refl, (known 116 refl, (known 59 refl, tt))))
  | quot e ↦ rw e (
    known 38 refl,
    (known 113 refl, (known 117 refl, (known 111 refl, (known 116 refl, (known 59 refl, tt))))),
  )
  | apos e ↦
      rw e (known 38 refl, (known 35 refl, (known 51 refl, (known 57 refl, (known 59 refl, tt)))))
  | plain e n k ↦ rw e (k, tt)
]
  where
    known : (d : ℕ) → ((d == 60) || ((d == 62) || ((d == 34) || (d == 39)))) ≡ false → IsHarmless d
    known d h = ground arith

-- Escaped text holds none of the characters that could end an element's text or a quoted
-- attribute's value.
pub escape_html-IsHarmless : (s : Text) → All IsHarmless (escape_html s)
unfolding escape_html
escape_html-IsHarmless [] = tt
escape_html-IsHarmless (c ∷ cs) =
    All-append IsHarmless (escape_char c) (escape_html cs) (escape_char-IsHarmless c)
      (escape_html-IsHarmless cs)

decode-escape_char :
    (c : ℕ) (rest : Text) → decode none (escape_char c ++ rest) ≡ c ∷ decode none rest
unfolding escape_char
decode-escape_char c rest = elim (special c) [
  | amp e ↦ rw e refl
  | lt e ↦ rw e refl
  | gt e ↦ rw e refl
  | quot e ↦ rw e refl
  | apos e ↦ rw e refl
  | plain e n k ↦ rw (e, n) refl
]

unescape : (s : Text) → decode none (escape_html s) ≡ s
unfolding escape_html
unescape [] = refl
unescape (c ∷ cs) = decode-escape_char c (escape_html cs) ∙ ap (c ∷◌) (unescape cs)

-- Escaped text holds no '<', no '>' and no quote, so that a browser finds neither a tag nor the end
-- of a quoted attribute in it, and with its character references read it is the text that was
-- escaped.
pub decode-escape_html :
    (s : Text) → All IsHarmless (escape_html s) × (decode none (escape_html s) ≡ s)
decode-escape_html s = (escape_html-IsHarmless s, unescape s)
