-- ===== src/Dashboard/Cards/Problems.antt =====
-- The card of problems of internal/server/web/static/dashboard.js against the problems that
-- internal/server/web/static/inventory.js counts.
use certguard.Base.{
  ◌≡◌, refl, sym, ap, ◌∙◌, inl, inr, List, [], ◌∷◌, ◌++◌, map, filter, Bool-cases, if◌then◌else◌,
}
use mathlib.Core.Path.{subst}
use mathlib.Core.List.{Perm}
use mathlib.Core.List.Perm
use certguard.Base.Bags.{Perm-append, Perm-exchange, append-append}
use certguard.Base.Text.{Text, is_set}
use certguard.Inventory.Items.{Item, Cert, Covered, Browser, Problem, problems_of, is_unreachable}
use certguard.Dashboard.Cards.{Row, error_rows, coverage_rows, all_coverage_rows, problem_rows}

-- The names of the problems of every entry.
unfoldable pub problem_names : List Item → List Text
problem_names [] = []
problem_names (it ∷ items) =
    map (λ (p : Problem). p.what) (problems_of it.cert) ++ problem_names items

abbrev pub names_of_rows : List Row → List Text
names_of_rows rs = map (λ (r : Row). r.name) rs

names-append : (rs ss : List Row) → names_of_rows (rs ++ ss) ≡ names_of_rows rs ++ names_of_rows ss
names-append [] ss = refl
names-append (r ∷ rs) ss = ap (r.name ∷◌) (names-append rs ss)

abbrev unreachable_names : List Covered → List Text
unreachable_names [] = []
unreachable_names (n ∷ ns) =
    let rest = unreachable_names ns in if is_unreachable n then n.name ∷ rest else rest

dead_names :
    (f : Covered → Problem)
    → ((n : Covered) → (f n).what ≡ n.name)
    → (ns : List Covered)
    → map (λ (p : Problem). p.what) (map f (filter is_unreachable ns)) ≡ unreachable_names ns
dead_names f what [] = refl
dead_names f what (n ∷ ns) = elim (Bool-cases (is_unreachable n)) [
  | inl e ↦ rw (e, what n) (ap (n.name ∷◌) (dead_names f what ns))
  | inr e ↦ rw e (dead_names f what ns)
]

own_error : Cert → List Text
own_error c = if is_set c.last_error then c.name ∷ [] else []

module _ (b : Browser) where
  names-coverage_rows :
      (c : Cert) (ns : List Covered) → names_of_rows (coverage_rows b c ns) ≡ unreachable_names ns
  unfolding coverage_rows
  names-coverage_rows c [] = refl
  names-coverage_rows c (n ∷ ns) = elim (Bool-cases (is_unreachable n)) [
    | inl e ↦ rw e (ap (n.name ∷◌) (names-coverage_rows c ns))
    | inr e ↦ rw e (names-coverage_rows c ns)
  ]

  names-error_rows :
      (it : Item) (items : List Item)
      → names_of_rows (error_rows b (it ∷ items))
        ≡ own_error it.cert ++ names_of_rows (error_rows b items)
  unfolding error_rows own_error
  names-error_rows it items = elim (Bool-cases (is_set it.cert.last_error)) [
    | inl e ↦ rw e refl
    | inr e ↦ rw e refl
  ]

  names-problems_of :
      (c : Cert)
      → map (λ (p : Problem). p.what) (problems_of c) ≡ own_error c ++ unreachable_names c.coverage
  unfolding problems_of own_error
  names-problems_of c = elim (Bool-cases (is_set c.last_error)) [
    | inl e ↦ rw e (ap (c.name ∷◌) (dead_names _ (λ n. refl) c.coverage))
    | inr e ↦ rw e (dead_names _ (λ n. refl) c.coverage)
  ]

  -- The card lists what the inventory counts: the names of its rows are those of the problems of
  -- all entries, each as often, the failed checks first.
  pub problem_rows-problem_names :
      (items : List Item) → Perm (names_of_rows (problem_rows b items)) (problem_names items)
  unfolding problem_rows all_coverage_rows problem_names error_rows
  problem_rows-problem_names [] = Perm.refl []
  problem_rows-problem_names (it ∷ items) =
      let e = own_error it.cert in
      let d = unreachable_names it.cert.coverage in
      let es = names_of_rows (error_rows b items) in
      let cs = names_of_rows (all_coverage_rows b items) in
      let rest = problem_names items in
      let ih : Perm (es ++ cs) rest =
        subst (λ l. Perm l rest) (names-append (error_rows b items) (all_coverage_rows b items))
          (problem_rows-problem_names items) in
      let left : names_of_rows (problem_rows b (it ∷ items)) ≡ e ++ (es ++ (d ++ cs)) =
        names-append (error_rows b (it ∷ items)) (all_coverage_rows b (it ∷ items))
        ∙ ap (◌++ names_of_rows (all_coverage_rows b (it ∷ items))) (names-error_rows it items)
        ∙ append-append e es (names_of_rows (all_coverage_rows b (it ∷ items)))
        ∙ ap (λ l. e ++ (es ++ l))
            (names-append (coverage_rows b it.cert it.cert.coverage) (all_coverage_rows b items)
              ∙ ap (◌++ cs) (names-coverage_rows it.cert it.cert.coverage)) in
      let right : problem_names (it ∷ items) ≡ e ++ (d ++ rest) =
        ap (◌++ rest) (names-problems_of it.cert) ∙ append-append e d rest in
      subst (λ l. Perm l (problem_names (it ∷ items))) (sym left)
        (subst (λ l. Perm (e ++ (es ++ (d ++ cs))) l) (sym right)
          (Perm-append e (es ++ (d ++ cs)) (d ++ rest)
            (Perm.trans (Perm-exchange es d cs) (Perm-append d (es ++ cs) rest ih))))
