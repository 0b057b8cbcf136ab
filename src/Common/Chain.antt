-- ===== src/Common/Chain.antt =====
-- `chainRisk` of internal/server/web/static/common.js. `parse` stands for `Date.parse`, `none` for
-- NaN.
use certguard.Base.{
  ◌≡◌, refl, sym, ◌⊎◌, inl, inr, Bool, true, false, Option, none, some, List, [], ◌∷◌,
  if◌then◌else◌, arith, All, Bool-cases, Option-cases,
}
use certguard.Base.Int.{ℤ, leb_ℤ, ltb_ℤ, ◌≤ℤ◌, ◌<ℤ◌}
use certguard.Base.Text.{Text}

pub record Link : Type 0 where
  pub subject : Text
  pub sha256 : Text
  pub not_after : Text

-- `best` and `bestAt`; `none` is `null` and `Infinity`.
abbrev pub Best : Type 0
Best = Option (Link × ℤ)

-- `!Number.isNaN(leaf) && at >= leaf`
abbrev pub outlives : Option ℤ → ℤ → Bool
outlives none at = false
outlives (some leaf) at = leb_ℤ leaf at

-- `at < bestAt`
abbrev pub sooner : ℤ → Best → Bool
sooner at none = true
sooner at (some (_, best_at)) = ltb_ℤ at best_at

abbrev pub link_of : Best → Option Link
link_of none = none
link_of (some (l, _)) = some l

module _ (parse : Text → Option ℤ) where
  unfoldable pub risk_step : Option ℤ → Best → Link → Best
  risk_step leaf best l = elim (parse l.not_after) [
    | none ↦ best
    | some at ↦ if outlives leaf at then best else if sooner at best then some (l, at) else best
  ]

  unfoldable pub risk_loop : Option ℤ → Best → List Link → Best
  unfolding risk_step
  risk_loop leaf best [] = best
  risk_loop leaf best (l ∷ ls) = risk_loop leaf (risk_step leaf best l) ls

  unfoldable pub chain_risk : Text → List Link → Option Link
  unfolding risk_loop
  chain_risk expires_at chain = link_of (risk_loop (parse expires_at) none chain)

  -- The date is before the leaf's, if the leaf has one.
  abbrev pub IsEarly : Option ℤ → ℤ → Type 0
  IsEarly none at = Unit
  IsEarly (some leaf) at = at <ℤ leaf

  outlives→IsEarly : (leaf : Option ℤ) (at : ℤ) → outlives leaf at ≡ false → IsEarly leaf at
  outlives→IsEarly none at h = tt
  outlives→IsEarly (some leaf) at h = ground (arith, h)

  IsEarly→outlives : (leaf : Option ℤ) (at : ℤ) → IsEarly leaf at → outlives leaf at ≡ false
  IsEarly→outlives none at h = refl
  IsEarly→outlives (some leaf) at h = ground (arith, h)

  -- The link has a date, and it is before the leaf's, if the leaf has one.
  pub record EndsFirst (leaf : Option ℤ) (l : Link) (at : ℤ) : Type 0 where
    pub dated : parse l.not_after ≡ some at
    pub early : IsEarly leaf at

  -- No link of the chain that ends before the leaf ends before this date.
  abbrev pub NoneSooner : Option ℤ → ℤ → List Link → Type 0
  NoneSooner leaf at = All (λ k. (t : ℤ) → EndsFirst leaf k t → at ≤ℤ t)

  abbrev pub NoneFirst : Option ℤ → List Link → Type 0
  NoneFirst leaf = All (λ k. (t : ℤ) → EndsFirst leaf k t → ⊥)

  -- The link is in the chain.
  abbrev pub In : Link → List Link → Type 0
  In l [] = ⊥
  In l (k ∷ ks) = (l ≡ k) ⊎ In l ks

  abbrev pub NotAbove : ℤ → Best → Type 0
  NotAbove at none = Unit
  NotAbove at (some (_, t)) = at ≤ℤ t

  -- What the loop makes of the best link so far.
  abbrev Verdict : Option ℤ → Best → List Link → Best → Type 0
  Verdict leaf best ls none = (best ≡ none) × NoneFirst leaf ls
  Verdict leaf best ls (some (l, at)) =
      ((best ≡ some (l, at)) ⊎ (In l ls × EndsFirst leaf l at))
      × NotAbove at best
      × NoneSooner leaf at ls

  -- One link: the best stays, and the link is no better; or the link is the new best.
  data Step (leaf : Option ℤ) (best : Best) (l : Link) : Type 0 where
    stays :
        risk_step leaf best l ≡ best
        → ((t : ℤ) → EndsFirst leaf l t → sooner t best ≡ false)
        → Step leaf best l
    takes :
        (at : ℤ)
        → risk_step leaf best l ≡ some (l, at)
        → EndsFirst leaf l at
        → sooner at best ≡ true
        → Step leaf best l

  step : (leaf : Option ℤ) (best : Best) (l : Link) → Step leaf best l
  unfolding risk_step
  step leaf best l = elim (Option-cases (parse l.not_after)) [
    | inl e ↦ stays (rw (e, risk_step) refl) (λ t k. cc)
    | inr (at, e) ↦ elim (Bool-cases (outlives leaf at)) [
      | inl o ↦
          stays (rw (e, risk_step, o) refl) (λ t k.
            let same_date : at ≡ t = cc in let early = IsEarly→outlives leaf t k.early in cc)
      | inr o ↦ elim (Bool-cases (sooner at best)) [
        | inl s ↦
            takes at (rw (e, risk_step, o, s) refl)
              (record { dated = e; early = outlives→IsEarly leaf at o }) s
        | inr s ↦ stays (rw (e, risk_step, o, s) refl) (λ t k. let same_date : at ≡ t = cc in cc)
      ]
    ]
  ]

  sooner-none : (t : ℤ) (best : Best) → best ≡ none → sooner t best ≡ false → ⊥
  sooner-none t none e h = cc
  sooner-none t (some _) e h = cc

  passed :
      (leaf : Option ℤ) (best : Best) (l : Link) (ls : List Link) (r : Best)
      → ((t : ℤ) → EndsFirst leaf l t → sooner t best ≡ false)
      → Verdict leaf best ls r
      → Verdict leaf best (l ∷ ls) r
  passed leaf best l ls none later v = (v.0, ((λ t k. sooner-none t best v.0 (later t k)), v.1))
  passed leaf best l ls (some (m, at)) later v =
      (first v.0, v.1, ((λ t k. not_sooner at t best v.1 (later t k) v.0), v.2))
    where
      first :
          (best ≡ some (m, at)) ⊎ (In m ls × EndsFirst leaf m at)
          → (best ≡ some (m, at)) ⊎ (In m (l ∷ ls) × EndsFirst leaf m at)
      first (inl e) = inl e
      first (inr (i, k)) = inr (inr i, k)

      not_sooner :
          (at t : ℤ) (b : Best)
          → NotAbove at b
          → sooner t b ≡ false
          → (b ≡ some (m, at)) ⊎ (In m ls × EndsFirst leaf m at)
          → at ≤ℤ t
      not_sooner at t none k h c = cc
      not_sooner at t (some (_, b)) k h c = ground arith

  taken :
      (leaf : Option ℤ) (best : Best) (l : Link) (ls : List Link) (at : ℤ) (r : Best)
      → EndsFirst leaf l at
      → sooner at best ≡ true
      → Verdict leaf (some (l, at)) ls r
      → Verdict leaf best (l ∷ ls) r
  taken leaf best l ls at none k s v = cc
  taken leaf best l ls at (some (m, t)) k s v =
      (source v.0, below best s v.1, ((λ u j. same_link u j), v.2))
    where
      source :
          (◌≡◌ {A = Best} (some (l, at)) (some (m, t))) ⊎ (In m ls × EndsFirst leaf m t)
          → (best ≡ some (m, t)) ⊎ (In m (l ∷ ls) × EndsFirst leaf m t)
      source (inl e) =
          let same_pair : (l ≡ m) × (at ≡ t) = (cc, cc) in
          inr (inl (sym same_pair.0), rw (sym same_pair.0, sym same_pair.1) k)
      source (inr (i, j)) = inr (inr i, j)

      below : (b : Best) → sooner at b ≡ true → t ≤ℤ at → NotAbove t b
      below none h n = tt
      below (some (_, b)) h n = ground arith

      same_link : (u : ℤ) → EndsFirst leaf l u → t ≤ℤ u
      same_link u j =
          let first_date = k.dated in
          let second_date = j.dated in let same_date : at ≡ u = cc in rw same_date at v.1

  risk_loop-Verdict :
      (leaf : Option ℤ) (best : Best) (ls : List Link)
      → Verdict leaf best ls (risk_loop leaf best ls)
  unfolding risk_loop
  risk_loop-Verdict leaf none [] = (refl, tt)
  risk_loop-Verdict leaf (some (l, at)) [] = (inl refl, ground arith, tt)
  risk_loop-Verdict leaf best (l ∷ ls) = elim (step leaf best l) [
    | stays e later ↦
        rw e (passed leaf best l ls (risk_loop leaf best ls) later (risk_loop-Verdict leaf best ls))
    | takes at e k s ↦ rw e (
        taken leaf best l ls at (risk_loop leaf (some (l, at)) ls) k s
          (risk_loop-Verdict leaf (some (l, at)) ls))
  ]

  -- What the result of the loop says, of the chain as a whole.
  abbrev pub IsFirstRisk : Option ℤ → List Link → Option Link → Type 0
  IsFirstRisk leaf chain none = NoneFirst leaf chain
  IsFirstRisk leaf chain (some l) =
      In l chain × ((at : ℤ) × EndsFirst leaf l at × NoneSooner leaf at chain)

  -- `chainRisk` returns a link of the chain that ends before the leaf, and none that does ends
  -- sooner; or there is no such link and it returns `null`. A link without a date never counts, and
  -- where the leaf has no date every dated link does.
  pub chain_risk-IsFirstRisk :
      (expires_at : Text) (chain : List Link)
      → IsFirstRisk (parse expires_at) chain (chain_risk expires_at chain)
  unfolding chain_risk
  chain_risk-IsFirstRisk expires_at chain =
      of_verdict (risk_loop (parse expires_at) none chain)
        (risk_loop-Verdict (parse expires_at) none chain)
    where
      of_verdict :
          (r : Best)
          → Verdict (parse expires_at) none chain r
          → IsFirstRisk (parse expires_at) chain (link_of r)
      of_verdict none v = v.1
      of_verdict (some (l, at)) v = elim v.0 [ inl e ↦ cc | inr (i, k) ↦ (i, (at, k, v.2)) ]
