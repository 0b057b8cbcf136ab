-- ===== src/Inventory/Csv/Read.antt =====
-- What the reader makes of the exported table.
use certguard.Base.{
  ℕ, ◌≡◌, refl, ◌∙◌, sym, ap, false, inl, inr, List, [], ◌∷◌, ◌++◌, map, any, Bool-cases, All,
}
use mathlib.Core.Path.{subst}
use certguard.Base.Text.{Text, join}
use certguard.Inventory.Items.{Item, Browser}
use certguard.Inventory.Csv.{is_special, cell, row, head, fields_of, table_text}
use certguard.Inventory.Csv.Reader.{
  plain, Reader, field_of, is_quoted, end_field, end_row, step, feed, started, read, reading,
  append-snoc, feed-append, feed-cons, feed-plain, feed-quoted,
}

-- The reader stands outside of quotes, where the end of a row would complete the fields.
record EndsWith (r : List (List Text)) (fs : List Text) (st : Reader) : Type 0 where
  same_rows : st.rows ≡ r
  same_fields : st.fields ++ (field_of st.mode ∷ []) ≡ fs
  outside : is_quoted st.mode ≡ false

feed-cell :
    (r : List (List Text)) (fs : List Text) (s : Text)
    → EndsWith r (fs ++ (s ∷ [])) (feed (reading r fs (plain [])) (cell s))
unfolding cell
feed-cell r fs s = elim (Bool-cases (any is_special s)) [
  | inl e ↦
      rw (e, feed-quoted r fs s) (record { same_rows = refl; same_fields = refl; outside = refl })
  | inr e ↦
      rw (e, feed-plain r fs [] s e)
        (record { same_rows = refl; same_fields = refl; outside = refl })
]

step-comma :
    (r : List (List Text)) (fs : List Text) (st : Reader)
    → EndsWith r fs st
    → step st 44 ≡ reading r fs (plain [])
unfolding step
step-comma r fs st h = rw h.outside (ap2_reading r fs st h)
  where
    ap2_reading :
        (r : List (List Text)) (fs : List Text) (st : Reader)
        → EndsWith r fs st
        → end_field st ≡ reading r fs (plain [])
    ap2_reading r fs st h = rw (h.same_rows, h.same_fields) refl

feed-row :
    (r : List (List Text)) (fs : List Text) (s : Text) (ss : List Text)
    → EndsWith r (fs ++ (s ∷ ss)) (feed (reading r fs (plain [])) (row (s ∷ ss)))
unfolding row
feed-row r fs s [] = feed-cell r fs s
feed-row r fs s (t ∷ ss) =
    let run : feed (reading r fs (plain [])) (row (s ∷ t ∷ ss))
        ≡ feed (reading r (fs ++ (s ∷ [])) (plain [])) (row (t ∷ ss)) =
      feed-append (reading r fs (plain [])) (cell s) (44 ∷ row (t ∷ ss))
      ∙ feed-cons (feed (reading r fs (plain [])) (cell s)) 44 (row (t ∷ ss))
      ∙ ap (λ st. feed st (row (t ∷ ss)))
          (step-comma r (fs ++ (s ∷ [])) (feed (reading r fs (plain [])) (cell s))
            (feed-cell r fs s)) in
    subst (λ st. EndsWith r (fs ++ (s ∷ t ∷ ss)) st) (sym run)
      (subst (λ gs. EndsWith r gs (feed (reading r (fs ++ (s ∷ [])) (plain [])) (row (t ∷ ss))))
        (append-snoc fs s (t ∷ ss)) (feed-row r (fs ++ (s ∷ [])) t ss))

step-line_feed :
    (r : List (List Text)) (fs : List Text) (st : Reader)
    → EndsWith r fs st
    → step (step st 13) 10 ≡ reading (r ++ (fs ∷ [])) [] (plain [])
unfolding step
step-line_feed r fs st h = rw (h.outside, h.outside) (rw (h.same_rows, h.same_fields) refl)

end_row-EndsWith :
    (r : List (List Text)) (fs : List Text) (st : Reader)
    → EndsWith r fs st
    → (end_row st).rows ≡ r ++ (fs ∷ [])
end_row-EndsWith r fs st h = rw (h.same_rows, h.same_fields) refl

-- A row has at least one field.
abbrev HasField : List Text → Type 0
HasField [] = ⊥
HasField (_ ∷ _) = Unit

feed-rows :
    (r : List (List Text)) (fs : List Text) (rest : List (List Text))
    → HasField fs
    → All HasField rest
    → (end_row (feed (reading r [] (plain [])) (join (13 ∷ 10 ∷ []) (map row (fs ∷ rest))))).rows
      ≡ r ++ (fs ∷ rest)
feed-rows r [] rest h k = absurd h
feed-rows r (s ∷ ss) [] h k =
    end_row-EndsWith r (s ∷ ss) (feed (reading r [] (plain [])) (row (s ∷ ss))) (feed-row r [] s ss)
feed-rows r (s ∷ ss) (gs ∷ rest) h k =
    let more : Text = join (13 ∷ 10 ∷ []) (map row (gs ∷ rest)) in
    let run : feed (reading r [] (plain [])) (row (s ∷ ss) ++ (13 ∷ (10 ∷ more)))
        ≡ feed (reading (r ++ ((s ∷ ss) ∷ [])) [] (plain [])) more =
      feed-append (reading r [] (plain [])) (row (s ∷ ss)) (13 ∷ 10 ∷ more)
      ∙ feed-cons (feed (reading r [] (plain [])) (row (s ∷ ss))) 13 (10 ∷ more)
      ∙ feed-cons (step (feed (reading r [] (plain [])) (row (s ∷ ss))) 13) 10 more
      ∙ ap (λ st. feed st more)
          (step-line_feed r (s ∷ ss) (feed (reading r [] (plain [])) (row (s ∷ ss)))
            (feed-row r [] s ss)) in
    ap (λ st. (end_row st).rows) run
    ∙ feed-rows (r ++ ((s ∷ ss) ∷ [])) gs rest k.0 k.1
    ∙ append-snoc r (s ∷ ss) (gs ∷ rest)

fields_of-HasField :
    (b : Browser) (show_port : ℕ → Text) (items : List Item)
    → All HasField (map (fields_of b show_port) items)
unfolding fields_of
fields_of-HasField b show_port [] = tt
fields_of-HasField b show_port (it ∷ items) = (tt, fields_of-HasField b show_port items)

row-head : row head ≡ join (44 ∷ []) head
unfolding row cell
row-head = refl

map-row :
    (b : Browser) (show_port : ℕ → Text) (items : List Item)
    → map (λ it. row (fields_of b show_port it)) items ≡ map row (map (fields_of b show_port) items)
map-row b show_port [] = refl
map-row b show_port (it ∷ items) =
    ap (row (fields_of b show_port it) ∷◌) (map-row b show_port items)

-- The exported table reads back: a reader of comma separated rows finds the column names and then,
-- for each entry in turn, its fields as they were, whatever commas, quotes and line ends they hold.
pub read-table_text :
    (b : Browser) (show_port : ℕ → Text) (items : List Item)
    → read (table_text b show_port items) ≡ head ∷ map (fields_of b show_port) items
unfolding read table_text
read-table_text b show_port items =
    ap (λ t. (end_row (feed started t)).rows)
      (ap (λ h. join (13 ∷ 10 ∷ []) (h ∷ map (λ it. row (fields_of b show_port it)) items))
          (sym row-head)
        ∙ ap (λ ls. join (13 ∷ 10 ∷ []) (row head ∷ ls)) (map-row b show_port items))
    ∙ feed-rows [] head (map (fields_of b show_port) items) tt
        (fields_of-HasField b show_port items)
