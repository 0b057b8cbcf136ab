-- ===== src/Grid/Resolve/Quiet.antt =====
-- Rounds of `resolve` of internal/server/web/static/widgets.js that push nothing.
use certguard.Base.{
  ℕ, zero, suc, ◌+◌, ◌*◌, ◌≤◌, ◌≡◌, refl, ◌∙◌, ◌||◌, true, false, inl, inr, none, some, List, [],
  ◌∷◌, arith, Option-cases, Bool-cases, get_elem?, length, drop,
}
use certguard.Grid.Rect.{Rect, overlaps}
use certguard.Grid.Rect.Overlap.{IsClear, IsDisjoint, overlaps_comm}
use certguard.Grid.Resolve.Rows.{AllLowered, stage-AllLowered, push_all-AllLowered}
use certguard.Grid.Resolve.{
  Sweep, push, push_all, push_others, stage, stages, sweep, settle, resolve_rects,
}

abbrev pub quiet : List Rect → Sweep
quiet os = record { rects = os; again = false }

push_all-quiet :
    (p : Rect) (os : List Rect)
    → (push_all p os).again ≡ false
    → ((push_all p os).rects ≡ os) × IsClear p os
unfolding push_all
push_all-quiet p [] h = (refl, tt)
push_all-quiet p (o ∷ os) h =
    let ih = push_all-quiet p os (ground arith) in (ground (arith, ih.0), (ground arith, ih.1))

-- Seen from index `i`, the later cards are clear.
push_others-quiet :
    (p : Rect) (i : ℕ) (os : List Rect)
    → (push_others p i os).again ≡ false
    → ((push_others p i os).rects ≡ os) × IsClear p (drop (suc i) os)
unfolding push_others
push_others-quiet p i [] h = (refl, tt)
push_others-quiet p zero (o ∷ os) h = let q = push_all-quiet p os h in (ground (arith, q.0), q.1)
push_others-quiet p (suc i) (o ∷ os) h =
    let ih = push_others-quiet p i os (ground arith) in (ground (arith, ih.0), ih.1)

drop-eq-cons :
    (os : List Rect) (i : ℕ) {p : Rect} → get_elem? os i ≡ some p → drop i os ≡ p ∷ drop (suc i) os
drop-eq-cons [] i h = cc
drop-eq-cons (o ∷ os) zero h = cc
drop-eq-cons (o ∷ os) (suc i) h = drop-eq-cons os i h

drop_past : (os : List Rect) (i : ℕ) → length os ≤ i → drop i os ≡ []
drop_past [] zero h = refl
drop_past [] (suc i) h = refl
drop_past (o ∷ os) zero h = absurd (omega arith)
drop_past (o ∷ os) (suc i) h = drop_past os i (omega arith)

get_elem?-eq-none : (os : List Rect) (i : ℕ) → get_elem? os i ≡ none → length os ≤ i
get_elem?-eq-none [] i h = omega arith
get_elem?-eq-none (o ∷ os) zero h = cc
get_elem?-eq-none (o ∷ os) (suc i) h = omega (arith, get_elem?-eq-none os i h)

AllLowered-length : (xs ys : List Rect) → AllLowered xs ys → length ys ≡ length xs
AllLowered-length [] [] h = refl
AllLowered-length [] (_ ∷ _) h = absurd h
AllLowered-length (_ ∷ _) [] h = absurd h
AllLowered-length (_ ∷ xs) (_ ∷ ys) h = omega (arith, AllLowered-length xs ys h.1)

record IsQuietStage (i : ℕ) (s : Sweep) (t : Sweep) : Type 0 where
  before : s.again ≡ false
  same : t.rects ≡ s.rects
  clear : IsDisjoint (drop (suc i) s.rects) → IsDisjoint (drop i s.rects)

stage-quiet : (i : ℕ) (s : Sweep) → (stage i s).again ≡ false → IsQuietStage i s (stage i s)
unfolding stage
stage-quiet i s h = elim (Option-cases (get_elem? s.rects i)) [
  | inl e ↦ at_end e
  | inr (p, e) ↦ at_card p e
]
  where
    at_end : get_elem? s.rects i ≡ none → IsQuietStage i s (stage i s)
    at_end e = record {
      before = rw (e, stage) at h;
      same = rw (e, stage);
      clear = λ d. rw (drop_past s.rects i (get_elem?-eq-none s.rects i e)) tt;
    }

    at_card : (p : Rect) → get_elem? s.rects i ≡ some p → IsQuietStage i s (stage i s)
    at_card p e =
        let h' : s.again || (push_others p i s.rects).again ≡ false = rw (e, stage) at h in
        let q = push_others-quiet p i s.rects (ground arith) in
        record {
          before = ground arith;
          same = rw (e, stage) q.0;
          clear = λ d. rw (drop-eq-cons s.rects i e) (q.1, d);
        }

stages-quiet :
    (n i : ℕ) (s : Sweep)
    → n + i ≡ length s.rects
    → (stages n i s).again ≡ false
    → (s.again ≡ false) × ((stages n i s).rects ≡ s.rects) × IsDisjoint (drop i s.rects)
unfolding stages
stages-quiet zero i s e h = (h, refl, rw (drop_past s.rects i (omega arith)) tt)
stages-quiet (suc n) i s e h =
    let size = AllLowered-length s.rects (stage i s).rects (stage-AllLowered i s) in
    let ih = stages-quiet n (suc i) (stage i s) (omega (arith, size)) h in
    let q = stage-quiet i s ih.0 in (q.before, ih.1 ∙ q.same, q.clear (rw q.same at ih.2))

sweep-quiet :
    (moved : Rect) (os : List Rect)
    → (sweep moved os).again ≡ false
    → ((sweep moved os).rects ≡ os) × IsDisjoint (moved ∷ os)
unfolding sweep
sweep-quiet moved os h =
    let size = AllLowered-length os (push_all moved os).rects (push_all-AllLowered moved os) in
    let q = stages-quiet (length os) 0 (push_all moved os) (omega (arith, size)) h in
    let r = push_all-quiet moved os q.0 in (q.1 ∙ r.0, (r.1, rw r.0 at q.2))

settle_still : (guard : ℕ) (moved : Rect) (s : Sweep) → s.again ≡ false → settle guard moved s ≡ s
unfolding settle
settle_still zero moved s a = refl
settle_still (suc guard) moved s a = ground arith

settle_step :
    (guard : ℕ) (moved : Rect) (s : Sweep)
    → s.again ≡ true
    → settle (suc guard) moved s ≡ settle guard moved (sweep moved s.rects)
unfolding settle
settle_step guard moved s a = rw (a, settle)

settle-quiet :
    (guard : ℕ) (moved : Rect) (s : Sweep)
    → s.again ≡ true
    → (settle guard moved s).again ≡ false
    → IsDisjoint (moved ∷ (settle guard moved s).rects)
unfolding settle
settle-quiet zero moved s a h = absurd (no_round refl)
  where
    no_round : settle zero moved s ≡ s → ⊥
    no_round e = ground (arith, e)
settle-quiet (suc guard) moved s a h =
    rw (settle_step guard moved s a) (elim (Bool-cases (sweep moved s.rects).again) [
      | inl e ↦
          settle-quiet guard moved (sweep moved s.rects) e (rw (settle_step guard moved s a) at h)
      | inr e ↦
          let q = sweep-quiet moved s.rects e in
          rw (settle_still guard moved (sweep moved s.rects) e, q.0) q.1
    ])

-- When the loop ends by its test, no two visible cards overlap: neither the moved card with
-- another nor two others.
pub resolve_rects-IsDisjoint :
    (moved : Rect) (os : List Rect)
    → (resolve_rects moved os).again ≡ false
    → IsDisjoint (moved ∷ (resolve_rects moved os).rects)
unfolding resolve_rects
resolve_rects-IsDisjoint moved os =
    settle-quiet ((length os + 1) * 4 + 16) moved (record { rects = os; again = true }) refl

push_all-clear : (p : Rect) (os : List Rect) → IsClear p os → push_all p os ≡ quiet os
unfolding push_all push
push_all-clear p [] d = refl
push_all-clear p (o ∷ os) d = ground (arith, d.0, push_all-clear p os d.1)

pub IsClear-get :
    (o : Rect) (os : List Rect) (i : ℕ) {p : Rect}
    → IsClear o os
    → get_elem? os i ≡ some p
    → overlaps o p ≡ false
IsClear-get o [] i d e = cc
IsClear-get o (q ∷ os) zero d e = ground (arith, d.0)
IsClear-get o (q ∷ os) (suc i) d e = IsClear-get o os i d.1 e

push_others-clear :
    (p : Rect) (i : ℕ) (os : List Rect)
    → IsDisjoint os
    → get_elem? os i ≡ some p
    → push_others p i os ≡ quiet os
unfolding push_others push
push_others-clear p i [] d e = cc
push_others-clear p zero (o ∷ os) d e =
    let same : o ≡ p = cc in rw (push_all-clear p os (rw same at d.0))
push_others-clear p (suc i) (o ∷ os) d e =
    ground
      (arith, overlaps_comm p o, IsClear-get o os i {p = p} d.0 e, push_others-clear p i os d.1 e)

stage-clear : (i : ℕ) (os : List Rect) → IsDisjoint os → stage i (quiet os) ≡ quiet os
unfolding stage
stage-clear i os d = elim (Option-cases (get_elem? os i)) [
  | inl e ↦ rw (e, stage)
  | inr (p, e) ↦ rw (e, stage) (rw (push_others-clear p i os d e))
]

stages-clear : (n i : ℕ) (os : List Rect) → IsDisjoint os → stages n i (quiet os) ≡ quiet os
unfolding stages
stages-clear zero i os d = refl
stages-clear (suc n) i os d = rw (stage-clear i os d) (stages-clear n (suc i) os d)

sweep-clear : (moved : Rect) (os : List Rect) → IsDisjoint (moved ∷ os) → sweep moved os ≡ quiet os
unfolding sweep
sweep-clear moved os d = rw (push_all-clear moved os d.0) (stages-clear (length os) 0 os d.1)

settle-clear :
    (guard : ℕ) (moved : Rect) (os : List Rect)
    → IsDisjoint (moved ∷ os)
    → settle (suc guard) moved (record { rects = os; again = true }) ≡ quiet os
settle-clear guard moved os d =
    settle_step guard moved (record { rects = os; again = true }) refl
    ∙ rw (sweep-clear moved os d) (settle_still guard moved (quiet os) refl)

-- If nothing overlaps, `resolve` changes nothing, and its last round has pushed nothing.
pub resolve_rects-clear :
    (moved : Rect) (os : List Rect) → IsDisjoint (moved ∷ os) → resolve_rects moved os ≡ quiet os
unfolding resolve_rects
resolve_rects-clear moved os d =
    let e : (length os + 1) * 4 + 16 ≡ suc ((length os + 1) * 4 + 15) = omega arith in
    rw e (settle-clear ((length os + 1) * 4 + 15) moved os d)
