-- ===== src/Grid/Rect/Bounds.antt =====
-- What `setRect` of internal/server/web/static/widgets.js stores, against the bounds of the grid.
use certguard.Base.{◌≡◌, arith}
use certguard.Grid.Rect.{Rect, RawRect, raw, normalise, IsFitted}

-- Whatever rectangle `setRect` is given, what it stores lies within the four columns and has the
-- least height at least.
pub normalise-IsFitted : (a : RawRect) → IsFitted (normalise a)
unfolding normalise
normalise-IsFitted a = ground arith

pub normalise-raw : (a : Rect) → IsFitted a → normalise (raw a) ≡ a
unfolding normalise
normalise-raw a v = ground arith

pub normalise_idem : (a : RawRect) → normalise (raw (normalise a)) ≡ normalise a
normalise_idem a = normalise-raw (normalise a) (normalise-IsFitted a)
