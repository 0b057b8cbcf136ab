-- ===== src/Dashboard/Tracked/Pages.antt =====
-- The pages of the list of internal/server/web/static/dashboard.js.
use certguard.Base.{
  ℕ, zero, suc, ◌+◌, ◌*◌, ◌-◌, min, ◌⊎◌, ◌∙◌, ◌≤◌, ◌≡◌, refl, sym, ap, inl, inr, true, false, not,
  ◌==◌, List, [], ◌∷◌, ◌++◌, take, drop, length, if-intro, leb, arith, leb→le,
}
use mathlib.Core.Path.{subst}
use certguard.Inventory.Items.{Item, Browser}
use certguard.Dashboard.Tracked.{
  Query, View, page, filter_sort_items, setup_more_observer, intersect, render_certs, scroll,
}

module _ {ℓ} {A : Type ℓ} where
  take-all : (n : ℕ) (xs : List A) → length xs ≤ n → take n xs ≡ xs
  take-all zero [] h = refl
  take-all zero (x ∷ xs) h = absurd (omega arith)
  take-all (suc n) [] h = refl
  take-all (suc n) (x ∷ xs) h = ap (x ∷◌) (take-all n xs (omega arith))

  -- The first `m` with the next `n` are the first, as many as there are.
  take-next :
      (m n : ℕ) (xs : List A)
      → take m xs ++ take n (drop m xs) ≡ take (m + length (take n (drop m xs))) xs
  take-next zero n xs =
      let e : length (take n xs) ≡ 0 + length (take n xs) = omega arith in
      subst (λ k. take n xs ≡ take k xs) e (take-length n xs)
    where
      take-length : (n : ℕ) (xs : List A) → take n xs ≡ take (length (take n xs)) xs
      take-length zero xs = refl
      take-length (suc n) [] = refl
      take-length (suc n) (x ∷ xs) = ap (x ∷◌) (take-length n xs)
  take-next (suc m) zero [] = sym (take-all (suc m + 0) [] (omega arith))
  take-next (suc m) (suc n) [] = sym (take-all (suc m + 0) [] (omega arith))
  take-next (suc m) n (x ∷ xs) =
      let l = length (take n (drop m xs)) in
      let e : suc (m + l) ≡ suc m + l = omega arith in
      subst (λ k. x ∷ (take m xs ++ take n (drop m xs)) ≡ take k (x ∷ xs)) e
        (ap (x ∷◌) (take-next m n xs))

  length-take : (n : ℕ) (xs : List A) → length (take n xs) ≡ min n (length xs)
  length-take zero xs = omega arith
  length-take (suc n) [] = omega arith
  length-take (suc n) (x ∷ xs) = omega (arith, length-take n xs)

  length-drop : (n : ℕ) (xs : List A) → length (drop n xs) ≡ length xs - n
  length-drop zero xs = omega arith
  length-drop (suc n) [] = omega arith
  length-drop (suc n) (x ∷ xs) = omega (arith, length-drop n xs)

  length-next : (m n : ℕ) (xs : List A) → length (take n (drop m xs)) ≡ min n (length xs - m)
  length-next m n xs = omega (arith, length-take n (drop m xs), length-drop m xs)

-- The rows are the first entries, as many as were asked for, and the observer and the sentinel are
-- there exactly while entries are left.
pub record IsPaged (all : List Item) (v : View) : Type 0 where
  pub first : v.rows ≡ take v.shown_count all
  pub left : v.observing ≡ not (leb (length all) v.shown_count)
  pub sentinel : v.sentinel_hidden ≡ not v.observing

module _ (b : Browser) (s : Query) where
  render_certs-IsPaged : (v : View) → IsPaged (filter_sort_items b s) (render_certs b s v)
  unfolding render_certs setup_more_observer
  render_certs-IsPaged v = record { first = refl; left = refl; sentinel = refl }

  -- One page more, or everything.
  Grows : View → View → Type 0
  Grows v w =
      (length (filter_sort_items b s) ≤ w.shown_count) ⊎ (v.shown_count + 12 ≤ w.shown_count)

  intersect-IsPaged :
      (v : View)
      → IsPaged (filter_sort_items b s) v
      → IsPaged (filter_sort_items b s) (intersect b s v) × Grows v (intersect b s v)
  unfolding intersect Grows
  intersect-IsPaged v h =
      let all = filter_sort_items b s in
      let next = length-next v.shown_count page all in
      if-intro (λ w. IsPaged all w × Grows v w) (not v.observing) (λ o. (h, inl (done o)))
        (λ o.
          if-intro (λ w. IsPaged all w × Grows v w)
            (length (take page (drop v.shown_count all)) == 0)
            (λ e. absurd (some_left o (ground arith)))
            (λ e.
              if-intro (λ w. IsPaged all w × Grows v w)
                (leb (length all) (v.shown_count + length (take page (drop v.shown_count all))))
                (λ f. (
                  record { first = grown; left = rw f refl; sentinel = refl },
                  inl (
                      leb→le (length all)
                        (v.shown_count + length (take page (drop v.shown_count all))) f),
                ))
                (λ f. (
                  record { first = grown; left = ground (arith, f, o); sentinel = h.sentinel },
                  inr (ground (arith, f, next)),
                ))))
    where
      done : not v.observing ≡ true → length (filter_sort_items b s) ≤ v.shown_count
      done o = let l = h.left in ground (arith, l)

      some_left :
          not v.observing ≡ false
          → length (take page (drop v.shown_count (filter_sort_items b s))) ≡ 0
          → ⊥
      some_left o e =
          let l = h.left in
          let n = length-next v.shown_count page (filter_sort_items b s) in ground (arith, l, n)

      grown :
          v.rows ++ take page (drop v.shown_count (filter_sort_items b s))
          ≡ take
              (v.shown_count + length (take page (drop v.shown_count (filter_sort_items b s))))
              (filter_sort_items b s)
      grown =
          ap (◌++ take page (drop v.shown_count (filter_sort_items b s))) h.first
          ∙ take-next v.shown_count page (filter_sort_items b s)

  intersect-grows : (v : View) → v.shown_count ≤ (intersect b s v).shown_count
  unfolding intersect
  intersect-grows v =
      let more = length (take page (drop v.shown_count (filter_sort_items b s))) in
      let P = λ (w : View). v.shown_count ≤ w.shown_count in
      if-intro P (not v.observing) (λ _. omega arith)
        (λ _.
          if-intro P (more == 0) (λ _. omega arith)
            (λ _.
              if-intro P (leb (length (filter_sort_items b s)) (v.shown_count + more))
                (λ _. omega arith) (λ _. omega arith)))

  scroll-grows : (k : ℕ) (v : View) → v.shown_count ≤ (scroll b k s v).shown_count
  unfolding scroll
  scroll-grows zero v = omega arith
  scroll-grows (suc k) v = omega (arith, intersect-grows v, scroll-grows k (intersect b s v))

  render_certs-page : (v : View) → 12 ≤ (render_certs b s v).shown_count
  unfolding render_certs setup_more_observer
  render_certs-page v = ground arith

  scroll-IsPaged :
      (k : ℕ) (v : View)
      → IsPaged (filter_sort_items b s) v
      → IsPaged (filter_sort_items b s) (scroll b k s v)
        × ((length (filter_sort_items b s) ≤ (scroll b k s v).shown_count)
            ⊎ (v.shown_count + 12 * k ≤ (scroll b k s v).shown_count))
  unfolding scroll Grows
  scroll-IsPaged zero v h = (h, inr (omega arith))
  scroll-IsPaged (suc k) v h =
      let once = intersect-IsPaged v h in
      let rest = scroll-IsPaged k (intersect b s v) once.0 in
      (rest.0, ground (arith, once.1, rest.1, scroll-grows k (intersect b s v)))

  -- After the sentinel of the next page has come into sight any number `j` of times, the rows are
  -- the first of the filtered and sorted entries, and the page asks for more exactly while entries
  -- are left. After as many times as there are further pages of twelve, all entries stand in the
  -- list and nothing is observed.
  pub scroll-all :
      (j k : ℕ) (v : View)
      → length (filter_sort_items b s) ≤ 12 * (k + 1)
      → IsPaged (filter_sort_items b s) (scroll b j s (render_certs b s v))
        × ((scroll b k s (render_certs b s v)).rows ≡ filter_sort_items b s)
        × ((scroll b k s (render_certs b s v)).observing ≡ false)
  scroll-all j k v h =
      let w = render_certs b s v in
      let q = scroll-IsPaged k w (render_certs-IsPaged v) in
      let enough : length (filter_sort_items b s) ≤ (scroll b k s w).shown_count =
        ground (arith, h, render_certs-page v, q.1) in
      let l = q.0.left in
      (
        (scroll-IsPaged j w (render_certs-IsPaged v)).0,
        q.0.first ∙ take-all (scroll b k s w).shown_count (filter_sort_items b s) enough,
        ground (arith, l, enough),
      )
