-- ===== src/Activity/Feed.antt =====
-- The diary of internal/server/web/static/activity.js.
use mathlib.Core.Path.{subst}
use certguard.Base.{
  ◌≡◌, ◌≢◌, refl, sym, ap, true, false, Option, none, some, List, [], ◌∷◌, if-intro,
}
use certguard.Base.Text.{Text, same, same_refl, same→≡}
use certguard.Inventory.Items.{Browser}
use certguard.Activity.{
  Event, State, visible, Day, Line, header, row, today_label, yesterday_label, on, same_label,
  day_label, is_last, feed_from, feed,
}

unfoldable pub rows_of : List Line → List Event
rows_of [] = []
rows_of (header d ∷ ls) = rows_of ls
rows_of (row e ∷ ls) = e ∷ rows_of ls

same_label→≡ : (d l : Day) → same_label d l ≡ true → d ≡ l
same_label→≡ today_label today_label h = refl
same_label→≡ today_label yesterday_label h = absurd cc
same_label→≡ today_label (on t) h = absurd cc
same_label→≡ yesterday_label today_label h = absurd cc
same_label→≡ yesterday_label yesterday_label h = refl
same_label→≡ yesterday_label (on t) h = absurd cc
same_label→≡ (on s) today_label h = absurd cc
same_label→≡ (on s) yesterday_label h = absurd cc
same_label→≡ (on s) (on t) h = ap on (same→≡ s t h)

same_label_refl : (d : Day) → same_label d d ≡ true
same_label_refl today_label = refl
same_label_refl yesterday_label = refl
same_label_refl (on s) = same_refl s

module _ (b : Browser) (today yesterday : Text) where
  -- An event of today, of yesterday, or of the day as the browser writes it.
  abbrev pub IsDayOf : Event → Day → Type 0
  IsDayOf e today_label = b.iso_day e.at ≡ today
  IsDayOf e yesterday_label = (b.iso_day e.at ≢ today) × (b.iso_day e.at ≡ yesterday)
  IsDayOf e (on s) = (b.iso_day e.at ≢ today) × (b.iso_day e.at ≢ yesterday) × (b.iso_day e.at ≡ s)

  not_same : (s t : Text) → same s t ≡ false → s ≢ t
  not_same s t h e =
      let k : same s t ≡ true = subst (λ z. same s z ≡ true) e (same_refl s) in absurd cc

  day_label-IsDayOf : (e : Event) → IsDayOf e (day_label b today yesterday e.at)
  unfolding day_label
  day_label-IsDayOf e =
      let s = b.iso_day e.at in
      if-intro (IsDayOf e) (same s today) (λ h. same→≡ s today h)
        (λ h.
          if-intro (IsDayOf e) (same s yesterday) (λ k. (not_same s today h, same→≡ s yesterday k))
            (λ k. (not_same s today h, not_same s yesterday k, refl)))

  -- Below the header `last`, if any: a header differs from it and has a row below it, and a row has
  -- the day of the header above it.
  abbrev pub IsDiary : Option Day → List Line → Type 0
  IsDiary last [] = Unit
  IsDiary last (header d ∷ []) = ⊥
  IsDiary last (header d ∷ header d' ∷ ls) = ⊥
  IsDiary last (header d ∷ row e ∷ ls) = (last ≢ some d) × (IsDayOf e d × IsDiary (some d) ls)
  IsDiary last (row e ∷ ls) = ((d : Day) × (last ≡ some d) × IsDayOf e d) × IsDiary last ls

  is_last→≡ :
      (d : Day) (last : Option Day) → is_last b today yesterday d last ≡ true → last ≡ some d
  is_last→≡ d none h = absurd cc
  is_last→≡ d (some l) h = ap some (sym (same_label→≡ d l h))

  is_last→≢ :
      (d : Day) (last : Option Day) → is_last b today yesterday d last ≡ false → last ≢ some d
  is_last→≢ d none h e = absurd cc
  is_last→≢ d (some l) h e =
      let eq : l ≡ d = cc in
      let t : same_label d l ≡ true =
        subst (λ z. same_label d z ≡ true) (sym eq) (same_label_refl d) in
      absurd cc

  feed_from-IsDiary :
      (last : Option Day) (es : List Event)
      → IsDiary last (feed_from b today yesterday last es)
        × (rows_of (feed_from b today yesterday last es) ≡ es)
  unfolding feed_from rows_of
  feed_from-IsDiary last [] = (tt, refl)
  feed_from-IsDiary last (e ∷ es) =
      let d = day_label b today yesterday e.at in
      let same_day = feed_from-IsDiary last es in
      let new_day = feed_from-IsDiary (some d) es in
      if-intro (λ ls. IsDiary last ls × (rows_of ls ≡ e ∷ es)) (is_last b today yesterday d last)
        (λ h. (((d, is_last→≡ d last h, day_label-IsDayOf e), same_day.0), ap (e ∷◌) same_day.1))
        (λ h. ((is_last→≢ d last h, (day_label-IsDayOf e, new_day.0)), ap (e ∷◌) new_day.1))

  -- The feed has the events that the filter shows, in their order and nothing else; each stands
  -- below a header of its own day, and no header stands below one of its day or without an event.
  pub feed-IsDiary :
      (st : State) (events : List Event)
      → IsDiary none (feed b today yesterday st events)
        × (rows_of (feed b today yesterday st events) ≡ visible b st events)
  unfolding feed
  feed-IsDiary st events = feed_from-IsDiary none (visible b st events)
