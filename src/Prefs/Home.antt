-- ===== src/Prefs/Home.antt =====
-- Where the redirect of internal/server/web/static/prefs-init.js may lead.
use certguard.Base.{
  ◌≡◌, refl, ◌⊎◌, inl, inr, String, false, Option, none, some, List, [], ◌∷◌, str_eq, eq_iff, arith,
  Bool-cases,
}
use mathlib.Core.Path.{subst}
use certguard.Prefs.{PageEntry, cg_pages, is_excluded, look_up, or_empty, home_path, home_redirect}

-- The path is one of the pages', and its page is not excluded from being a home page.
abbrev pub Offered : String → List PageEntry → Type 0
Offered t [] = ⊥
Offered t (p ∷ ps) = ((p.path ≡ t) × (is_excluded p.can_be_home ≡ false)) ⊎ Offered t ps

look_up-Offered :
    (v : String) (ps : List PageEntry) → (look_up v ps ≡ "") ⊎ ((look_up v ps ≡ v) × Offered v ps)
unfolding look_up
look_up-Offered v [] = inl refl
look_up-Offered v (p ∷ ps) = elim (Bool-cases (str_eq p.path v)) [
  | inl e ↦ elim (Bool-cases (is_excluded p.can_be_home)) [
    | inl k ↦ inl (rw (e, k) refl)
    | inr k ↦ inr (rw (e, k) refl, inl ((eq_iff p.path v).0 e, k))
  ]
  | inr e ↦ elim (look_up-Offered v ps) [ inl h ↦ inl (rw e h) | inr (h, o) ↦ inr (rw e h, inr o) ]
]

home_path-Offered :
    (stored : Option String)
    → (home_path cg_pages stored ≡ "")
      ⊎ (home_path cg_pages stored ≡ "/")
      ⊎ Offered (home_path cg_pages stored) cg_pages
unfolding home_path
home_path-Offered stored = elim (Bool-cases (str_eq (or_empty stored) "")) [
  | inl a ↦ inl (rw a refl)
  | inr a ↦ elim (Bool-cases (str_eq (or_empty stored) "dashboard")) [
    | inl b ↦ inr (inl (rw (a, b) refl))
    | inr b ↦ elim (Bool-cases (str_eq (or_empty stored) "inventory")) [
      | inl c ↦ inr (inr (rw (a, b, c) (inr (inl (refl, refl)))))
      | inr c ↦ elim (look_up-Offered (or_empty stored) cg_pages) [
        | inl h ↦ inl (rw (a, b, c) h)
        | inr (h, o) ↦ inr (inr (rw (a, b, c, h) o))
      ]
    ]
  ]
]

home_redirect-some :
    (pathname : String) (stored : Option String) (target : String)
    → home_redirect cg_pages pathname stored ≡ some target
    → (home_path cg_pages stored ≡ target)
      × (str_eq (home_path cg_pages stored) "" ≡ false)
      × (str_eq (home_path cg_pages stored) "/" ≡ false)
unfolding home_redirect
home_redirect-some pathname stored target h = elim (Bool-cases (str_eq pathname "/")) [
  | inr e ↦ absurd (not_none (rw e at h))
  | inl e ↦ elim (Bool-cases (str_eq (home_path cg_pages stored) "")) [
    | inl a ↦ absurd (not_none (rw (e, a) at h))
    | inr a ↦ elim (Bool-cases (str_eq (home_path cg_pages stored) "/")) [
      | inl b ↦ absurd (not_none (rw (e, a, b) at h))
      | inr b ↦
          let same : ◌≡◌ {A = Option String} (some (home_path cg_pages stored)) (some target) =
            rw (e, a, b) at h in
          (cc, a, b)
    ]
  ]
]
  where
    not_none : ◌≡◌ {A = Option String} none (some target) → ⊥
    not_none k = cc

-- Whatever the browser has stored, a redirect leads to a page of the list that may be a home page,
-- and from there to nowhere else: that page is not redirected again.
pub home_redirect-Offered :
    (pathname : String) (stored : Option String) (target : String)
    → home_redirect cg_pages pathname stored ≡ some target
    → Offered target cg_pages × (home_redirect cg_pages target stored ≡ none)
unfolding home_redirect
home_redirect-Offered pathname stored target h =
    let found = home_redirect-some pathname stored target h in
    let elsewhere : str_eq target "/" ≡ false = rw found.0 at found.2 in
    (
      elim (home_path-Offered stored) [
        | inl k ↦ absurd (differs "" k found.1)
        | inr (inl k) ↦ absurd (differs "/" k found.2)
        | inr (inr o) ↦ subst (λ t. Offered t cg_pages) found.0 o
      ],
      rw (elsewhere, home_redirect) refl,
    )
  where
    differs :
        (t : String)
        → home_path cg_pages stored ≡ t
        → str_eq (home_path cg_pages stored) t ≡ false
        → ⊥
    differs t k e = ground (arith, eq_iff (home_path cg_pages stored) t)
