-- ===== src/Activity/Tiles.antt =====
-- The numbers in the tiles of internal/server/web/static/activity.js.
use certguard.Base.{
  ℕ, suc, ◌+◌, ◌≡◌, refl, ap, inl, inr, true, List, [], ◌∷◌, filter, length, All, Bool-cases, arith,
}
use certguard.Base.Text.{Text, same, is_set}
use certguard.Inventory.Items.{Browser}
use certguard.Activity.{Event, State, shows, visible, count_from, count_of}

count_from-filter :
    (n : ℕ) (key : Text) (es : List Event)
    → count_from n key es ≡ n + length (filter (λ (e : Event). same e.kind key) es)
unfolding count_from
count_from-filter n key [] = omega arith
count_from-filter n key (e ∷ es) = elim (Bool-cases (same e.kind key)) [
  | inl h ↦ rw h (omega (arith, count_from-filter (suc n) key es))
  | inr h ↦ rw h (count_from-filter n key es)
]

-- The filter for a kind alone.
abbrev pub of_kind : Text → State
of_kind key = record { q = []; kind = key }

module _ (b : Browser) (lower_empty : b.lower [] ≡ []) where
  visible-of_kind :
      (k : ℕ) (ks : Text) (es : List Event)
      → length (visible b (of_kind (k ∷ ks)) es)
        ≡ length (filter (λ (e : Event). same e.kind (k ∷ ks)) es)
  unfolding visible shows
  visible-of_kind k ks [] = refl
  visible-of_kind k ks (e ∷ es) = elim (Bool-cases (same e.kind (k ∷ ks))) [
    | inl h ↦ rw (lower_empty, h) (ap suc (visible-of_kind k ks es))
    | inr h ↦ rw h (visible-of_kind k ks es)
  ]

  visible-all : (es : List Event) → length (visible b (of_kind []) es) ≡ length es
  unfolding visible shows
  visible-all [] = refl
  visible-all (e ∷ es) = rw lower_empty (ap suc (visible-all es))

  none_empty :
      (es : List Event)
      → All (λ e. is_set e.kind ≡ true) es
      → length (filter (λ (e : Event). same e.kind []) es) ≡ 0
  none_empty [] h = refl
  none_empty (e ∷ es) h = elim (Bool-cases (same e.kind [])) [
    | inl k ↦ absurd (clash e.kind h.0 k)
    | inr k ↦ rw k (none_empty es h.1)
  ]
    where
      clash : (s : Text) → is_set s ≡ true → same s [] ≡ true → ⊥
      clash [] h k = cc
      clash (x ∷ xs) h k = cc

  -- Where lower case leaves the empty text as it is and every event has a kind, the number in a
  -- tile, that of all events included, is the number of events that a click on it shows when
  -- nothing is searched for.
  pub count_of-visible :
      (key : Text) (es : List Event)
      → All (λ e. is_set e.kind ≡ true) es
      → count_of key es ≡ length (visible b (record { q = []; kind = key }) es)
  unfolding count_of
  count_of-visible [] es h =
      omega (arith, count_from-filter (length es) [] es, none_empty es h, visible-all es)
  count_of-visible (k ∷ ks) es h =
      omega (arith, count_from-filter 0 (k ∷ ks) es, visible-of_kind k ks es)
