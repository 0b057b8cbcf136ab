-- ===== src/Arranger/Tests.antt =====
-- Runs of the arranger.
use certguard.Base.{ℕ, ◌≡◌, ◌⊎◌, refl, false, [], ◌∷◌, arith}
use certguard.Base.Int.{ℤ, pos_part}
use certguard.Arranger.{Tile, snap_row}
use certguard.Arranger.Snapping.{IsEdge, AreFar, IsSnapped, snap_row-IsSnapped}
use certguard.Arranger.Drag.{IsInMap}

abbrev tile : Tile
tile = record {
  id = "tracked";
  title = "Tracked";
  col = 0;
  row = 0;
  span = 2;
  rows = 10;
  hidden = false;
}

abbrev neighbour : Tile
neighbour = record {
  id = "calendar";
  title = "Calendar";
  col = 2;
  row = 14;
  span = 2;
  rows = 6;
  hidden = false;
}

-- The bottom edge, at row 12, is pulled to row 14.
pulled : snap_row (tile ∷ neighbour ∷ []) tile 2 ≡ 4
unfolding snap_row
pulled = refl

snap_row-IsSnapped_example :
    ((snap_row (tile ∷ neighbour ∷ []) tile 2 ≡ 2) × AreFar tile 2 (tile ∷ neighbour ∷ []))
    ⊎ ((z : ℤ) × (ln : ℕ) × (snap_row (tile ∷ neighbour ∷ []) tile 2 ≡ pos_part z)
        × IsEdge tile (tile ∷ neighbour ∷ []) ln
        × IsSnapped tile 2 z ln)
snap_row-IsSnapped_example = snap_row-IsSnapped (tile ∷ neighbour ∷ []) tile 2

tile-IsInMap : IsInMap tile
tile-IsInMap = record { wide = omega arith; inside = omega arith; tall = omega arith }
