-- ===== src/Grid/Tests.antt =====
-- Runs of the grid's operations on small pages.
use certguard.Base.{ℕ, ◌≡◌, refl, String, false, none, some, List, [], ◌∷◌, arith, map}
use certguard.Base.Int.{pos}
use certguard.Grid.Rect.{Rect, raw, normalise, IsFitted}
use certguard.Grid.Rect.Bounds.{normalise-raw}
use certguard.Grid.Card.{Card, visible, rect_of, set_rect, IsSpread, HasUniqueIds}
use certguard.Grid.Resolve.{resolve_rects}
use certguard.Grid.Resolve.Kept.{AllKept, resolve_rects-AllKept}
use certguard.Grid.Compact.{packed, compact}
use certguard.Grid.Compact.Rise.{AllRisen}
use certguard.Grid.Compact.Cards.{compact-IsSpread, compact-AllRisen}
use certguard.Grid.Place.{place_unplaced, place_into_free_space}
use certguard.Grid.Place.Below.{place_unplaced-IsSpread}
use certguard.Grid.Place.Free.{place_into_free_space-IsSpread}
use certguard.Grid.Storage.{save, apply}
use certguard.Grid.Storage.Positions.{SameLayout}
use certguard.Grid.Storage.Restore.{apply-save}
use certguard.Grid.Layout.Boxes.{AreApart, overlaps-AreApart}
use certguard.Grid.Actions.{put_at, write_back, resolve, place}
use certguard.Grid.Actions.Drop.{IsPlaced, place-IsDisjoint}

abbrev card_at : String → ℕ → ℕ → ℕ → ℕ → Card
card_at id col row w h = record {
  id = id;
  title = id;
  inline_span = none;
  span = some w;
  col = some col;
  row = some row;
  w = some w;
  h = some h;
  off = false;
  natural_height = 100;
}

abbrev tracked : Card
tracked = card_at "tracked" 0 0 2 10

abbrev calendar : Card
calendar = card_at "calendar" 2 0 2 12

abbrev audit : Card
audit = card_at "audit" 0 20 4 8

abbrev fresh : Card
fresh = record (card_at "fresh" 0 0 1 5) { col = none; row = none }

abbrev page : List Card
page = tracked ∷ calendar ∷ audit ∷ []

-- The calendar is dropped on the tracked list, which is pushed down and pushes the audit.
dropped :
    map rect_of (place "calendar" (record { c = pos 1; r = pos 5; w = pos 2; h = pos 12 }) page)
    ≡ record { c = 0; r = 17; w = 2; h = 10 }
      ∷ record { c = 1; r = 5; w = 2; h = 12 }
      ∷ record { c = 0; r = 27; w = 4; h = 8 }
      ∷ []
unfolding place resolve write_back put_at resolve_rects set_rect rect_of
dropped = refl

place-IsDisjoint_example :
    IsPlaced "calendar"
      (normalise (record { c = pos 1; r = pos 5; w = pos 2; h = pos 12 }))
      (place "calendar" (record { c = pos 1; r = pos 5; w = pos 2; h = pos 12 }) page)
unfolding resolve_rects normalise rect_of
place-IsDisjoint_example =
    place-IsDisjoint "calendar" (record { c = pos 1; r = pos 5; w = pos 2; h = pos 12 }) page
      calendar refl refl

page-HasUniqueIds : HasUniqueIds page
page-HasUniqueIds = ((refl, (refl, tt)), ((refl, tt), (tt, tt)))

page-IsSpread : IsSpread (packed page)
unfolding rect_of
page-IsSpread = ((refl, (refl, tt)), ((refl, tt), (tt, tt)))

compact-IsSpread_example : IsSpread (packed (compact page))
compact-IsSpread_example = compact-IsSpread page page-HasUniqueIds

compact-AllRisen_example : AllRisen (map rect_of page) (map rect_of (compact page))
compact-AllRisen_example = compact-AllRisen page page-HasUniqueIds page-IsSpread

page_and_fresh-HasUniqueIds : HasUniqueIds (fresh ∷ page)
page_and_fresh-HasUniqueIds = ((refl, (refl, (refl, tt))), page-HasUniqueIds)

place_into_free_space-IsSpread_example :
    IsSpread (packed (place_into_free_space 900 "fresh" (fresh ∷ page)))
place_into_free_space-IsSpread_example =
    place_into_free_space-IsSpread 900 "fresh" (fresh ∷ page) page_and_fresh-HasUniqueIds
      page-IsSpread

place_unplaced-IsSpread_example : IsSpread (visible (place_unplaced 900 (fresh ∷ page)))
place_unplaced-IsSpread_example = place_unplaced-IsSpread 900 (fresh ∷ page) page-IsSpread

apply-save_example : SameLayout (apply 900 (some (save page)) none page) page
apply-save_example = apply-save 900 none page page (refl, (refl, (refl, tt))) page-HasUniqueIds

abbrev at_top : Rect
at_top = record { c = 1; r = 0; w = 2; h = 6 }

abbrev left_of : Rect
left_of = record { c = 0; r = 2; w = 2; h = 8 }

abbrev right_of : Rect
right_of = record { c = 2; r = 3; w = 2; h = 5 }

resolve_rects-AllKept_example :
    AllKept 6 (left_of ∷ right_of ∷ []) (resolve_rects at_top (left_of ∷ right_of ∷ [])).rects
resolve_rects-AllKept_example =
    resolve_rects-AllKept at_top (left_of ∷ right_of ∷ []) ((refl, tt), (tt, tt))

at_top-IsFitted : IsFitted at_top
at_top-IsFitted = record { wide = omega arith; inside = omega arith; tall = omega arith }

left_of-IsFitted : IsFitted left_of
left_of-IsFitted = record { wide = omega arith; inside = omega arith; tall = omega arith }

right_of-IsFitted : IsFitted right_of
right_of-IsFitted = record { wide = omega arith; inside = omega arith; tall = omega arith }

normalise-raw_example : normalise (raw at_top) ≡ at_top
normalise-raw_example = normalise-raw at_top at_top-IsFitted

overlaps-AreApart_example : AreApart 1021 left_of right_of
overlaps-AreApart_example =
    overlaps-AreApart 1021 left_of right_of (omega arith) left_of-IsFitted right_of-IsFitted refl
