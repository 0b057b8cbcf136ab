-- ===== src/Nav/Links.antt =====
-- What internal/server/web/static/nav.js keeps of the links that pages add.
use certguard.Base.{
  ◌≡◌, refl, inl, inr, true, false, List, [], ◌∷◌, ◌++◌, any, AllPairs, All, Bool-cases, arith,
}
use certguard.Base.Text.{Text, same, same_refl, same-sym}
use certguard.Nav.{nav_add_item}

any-last : (href : Text) (links : List Text) → any (same href) (links ++ (href ∷ [])) ≡ true
any-last href [] = rw (same_refl href) refl
any-last href (x ∷ xs) = let ih = any-last href xs in ground (arith, ih)

any-All :
    (href : Text) (links : List Text)
    → any (same href) links ≡ false
    → All (λ x. same href x ≡ false) links
any-All href [] h = tt
any-All href (x ∷ xs) h = (ground arith, any-All href xs (ground arith))

All-snoc :
    (href : Text) (x : Text) (xs : List Text)
    → same href x ≡ false
    → All (λ y. same x y ≡ false) xs
    → All (λ y. same x y ≡ false) (xs ++ (href ∷ []))
All-snoc href x [] h k = (rw (same-sym x href) h, tt)
All-snoc href x (y ∷ ys) h k = (k.0, All-snoc href x ys h k.1)

-- No two links lead to the same place.
abbrev pub IsDistinct : List Text → Type 0
IsDistinct = AllPairs (λ x y. same x y ≡ false)

snoc-IsDistinct :
    (href : Text) (links : List Text)
    → All (λ x. same href x ≡ false) links
    → IsDistinct links
    → IsDistinct (links ++ (href ∷ []))
snoc-IsDistinct href [] a d = (tt, tt)
snoc-IsDistinct href (x ∷ xs) a d = (All-snoc href x xs a.0 d.0, snoc-IsDistinct href xs a.1 d.1)

-- Adding a link to a panel without two links to one place leaves such a panel, with the link in it,
-- and adding it again changes nothing.
pub nav_add_item-IsDistinct :
    (href : Text) (links : List Text)
    → IsDistinct links
    → IsDistinct (nav_add_item href links)
      × (any (same href) (nav_add_item href links) ≡ true)
      × (nav_add_item href (nav_add_item href links) ≡ nav_add_item href links)
unfolding nav_add_item
nav_add_item-IsDistinct href links d = elim (Bool-cases (any (same href) links)) [
  | inl e ↦ rw e (d, e, rw e refl)
  | inr e ↦ rw e (
    snoc-IsDistinct href links (any-All href links e) d,
    any-last href links,
    rw (any-last href links) refl,
  )
]
