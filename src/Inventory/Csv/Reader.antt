-- ===== src/Inventory/Csv/Reader.antt =====
-- A reader of comma separated rows, on doubled text and on plain text.
use certguard.Base.{
  ℕ, ◌≡◌, refl, ◌∙◌, sym, ap, Bool, true, false, inl, inr, List, [], ◌∷◌, ◌++◌, any, if◌then◌else◌,
  ◌==◌, arith, Bool-cases,
}
use certguard.Base.Text.{Text}
use certguard.Inventory.Csv.{is_special, double}

-- Where in a field the reader is, with the field so far.
pub data Mode : Type 0 where
  plain : Text → Mode
  quoted : Text → Mode
  closing : Text → Mode

abbrev pub field_of : Mode → Text
field_of (plain a) = a
field_of (quoted a) = a
field_of (closing a) = a

abbrev pub is_quoted : Mode → Bool
is_quoted (quoted a) = true
is_quoted _ = false

-- The rows that are complete, the fields of the present one, and the present field.
pub record Reader : Type 0 where
  pub rows : List (List Text)
  pub fields : List Text
  pub mode : Mode

-- One character within a field. A quote opens a quoted field only at its start.
abbrev pub within_field : Mode → ℕ → Mode
within_field (plain []) c = if c == 34 then quoted [] else plain (c ∷ [])
within_field (plain (d ∷ a)) c = plain ((d ∷ a) ++ (c ∷ []))
within_field (quoted a) c = if c == 34 then closing a else quoted (a ++ (c ∷ []))
within_field (closing a) c = if c == 34 then quoted (a ++ (c ∷ [])) else plain (a ++ (c ∷ []))

abbrev pub end_field : Reader → Reader
end_field st = record st { fields = st.fields ++ (field_of st.mode ∷ []); mode = plain [] }

abbrev pub end_row : Reader → Reader
end_row st = record {
  rows = st.rows ++ ((st.fields ++ (field_of st.mode ∷ [])) ∷ []);
  fields = [];
  mode = plain [];
}

-- A comma ends a field and a line feed a row, outside of quotes; a carriage return there is passed
-- over.
unfoldable pub step : Reader → ℕ → Reader
step st c =
    if is_quoted st.mode
    then record st { mode = within_field st.mode c }
    else if c == 44
    then end_field st
    else if c == 10
    then end_row st
    else if c == 13
    then st
    else record st { mode = within_field st.mode c }

unfoldable pub feed : Reader → Text → Reader
unfolding step
feed st [] = st
feed st (c ∷ cs) = feed (step st c) cs

abbrev pub started : Reader
started = record { rows = []; fields = []; mode = plain [] }

unfoldable pub read : Text → List (List Text)
unfolding feed
read s = (end_row (feed started s)).rows

pub feed-append : (st : Reader) (s t : Text) → feed st (s ++ t) ≡ feed (feed st s) t
unfolding feed
feed-append st [] t = refl
feed-append st (c ∷ s) t = feed-append (step st c) s t

pub append-snoc {ℓ} :
    {A : Type ℓ} (a : List A) (c : A) (s : List A) → (a ++ (c ∷ [])) ++ s ≡ a ++ (c ∷ s)
append-snoc [] c s = refl
append-snoc (d ∷ a) c s = ap (d ∷◌) (append-snoc a c s)

pub append_empty : (a : Text) → a ++ [] ≡ a
append_empty [] = refl
append_empty (d ∷ a) = ap (d ∷◌) (append_empty a)

abbrev pub reading : List (List Text) → List Text → Mode → Reader
reading r fs m = record { rows = r; fields = fs; mode = m }

step-quoted :
    (r : List (List Text)) (fs : List Text) (a : Text) (c : ℕ)
    → (c == 34) ≡ false
    → step (reading r fs (quoted a)) c ≡ reading r fs (quoted (a ++ (c ∷ [])))
unfolding step
step-quoted r fs a c h = rw h refl

pub feed-cons : (st : Reader) (c : ℕ) (cs : Text) → feed st (c ∷ cs) ≡ feed (step st c) cs
unfolding feed
feed-cons st c cs = refl

-- Within quotes, doubled text is taken as it was.
feed-double :
    (r : List (List Text)) (fs : List Text) (a s : Text)
    → feed (reading r fs (quoted a)) (double s) ≡ reading r fs (quoted (a ++ s))
unfolding feed double
feed-double r fs a [] = ap (λ t. reading r fs (quoted t)) (sym (append_empty a))
feed-double r fs a (c ∷ s) = elim (Bool-cases (c == 34)) [
  | inl e ↦
      let same_c : c ≡ 34 = ground arith in
      rw same_c (
        feed-double r fs (a ++ (34 ∷ [])) s
        ∙ ap (λ t. reading r fs (quoted t)) (append-snoc a 34 s))
  | inr e ↦ rw e (
      ap (λ st. feed st (double s)) (step-quoted r fs a c e)
      ∙ feed-double r fs (a ++ (c ∷ [])) s
      ∙ ap (λ t. reading r fs (quoted t)) (append-snoc a c s))
]

within_field-plain :
    (a : Text) (c : ℕ) → (c == 34) ≡ false → within_field (plain a) c ≡ plain (a ++ (c ∷ []))
within_field-plain [] c h = rw h refl
within_field-plain (d ∷ a) c h = refl

step-plain :
    (r : List (List Text)) (fs : List Text) (a : Text) (c : ℕ)
    → is_special c ≡ false
    → step (reading r fs (plain a)) c ≡ reading r fs (plain (a ++ (c ∷ [])))
unfolding step
step-plain r fs a c h =
    let no_quote : (c == 34) ≡ false = ground arith in
    let no_comma : (c == 44) ≡ false = ground arith in
    let no_feed : (c == 10) ≡ false = ground arith in
    let no_return : (c == 13) ≡ false = ground arith in
    rw (no_comma, no_feed, no_return) (ap (reading r fs) (within_field-plain a c no_quote))

-- Text without a special character is taken as it is.
pub feed-plain :
    (r : List (List Text)) (fs : List Text) (a s : Text)
    → any is_special s ≡ false
    → feed (reading r fs (plain a)) s ≡ reading r fs (plain (a ++ s))
unfolding feed
feed-plain r fs a [] h = ap (λ t. reading r fs (plain t)) (sym (append_empty a))
feed-plain r fs a (c ∷ s) h =
    ap (λ st. feed st s) (step-plain r fs a c (ground arith))
    ∙ feed-plain r fs (a ++ (c ∷ [])) s (ground arith)
    ∙ ap (λ t. reading r fs (plain t)) (append-snoc a c s)

pub feed-quoted :
    (r : List (List Text)) (fs : List Text) (s : Text)
    → feed (reading r fs (plain [])) (34 ∷ double s ++ (34 ∷ [])) ≡ reading r fs (closing s)
unfolding feed
feed-quoted r fs s =
    feed-append (reading r fs (quoted [])) (double s) (34 ∷ [])
    ∙ ap (λ st. feed st (34 ∷ [])) (feed-double r fs [] s)
