-- ===== src/Grid/Card/Laws.antt =====
-- What a card's attributes say after `setRect`, and what `rectOf` says of any card.
use certguard.Base.{◌≡◌, refl, ◌∙◌, true, false, String, str_eq, eq_iff, arith}
use certguard.Grid.Rect.{Rect, RawRect, raw, normalise, IsFitted}
use certguard.Grid.Rect.Bounds.{normalise-raw}
use certguard.Grid.Card.{Card, span_of, rect_of, set_rect, is_placed}

pub rect_of-IsFitted : (c : Card) → IsFitted (rect_of c)
unfolding rect_of span_of
rect_of-IsFitted c = record { wide = ground arith; inside = ground arith; tall = ground arith }

pub rect_of-set_rect : (c : Card) (a : RawRect) → rect_of (set_rect c a) ≡ normalise a
unfolding rect_of set_rect
rect_of-set_rect c a = ground arith

pub rect_of-set_raw : (c : Card) (a : Rect) → IsFitted a → rect_of (set_rect c (raw a)) ≡ a
rect_of-set_raw c a v = rect_of-set_rect c (raw a) ∙ normalise-raw a v

pub set_rect-is_placed : (c : Card) (a : RawRect) → is_placed (set_rect c a) ≡ true
unfolding set_rect
set_rect-is_placed c a = refl

pub str_eq_sym : (s t : String) → str_eq s t ≡ false → str_eq t s ≡ false
str_eq_sym s t h = ground (arith, eq_iff s t, eq_iff t s)
