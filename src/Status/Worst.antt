-- ===== src/Status/Worst.antt =====
-- The headline of internal/server/web/static/status.js and the counts it is made from.
use certguard.Base.{◌<◌, ◌≡◌, refl, none, some, if-intro, ltb, arith}
use certguard.Common.Expiry.{Level, urgent, warn, notice, ok}
use certguard.Status.{
  Counts, Headline, all_healthy, expired_now, not_checking, expiring_soon, unavailable, Page,
  headline_of, render, load,
}

-- A headline is true of the counts, and nothing worse is.
abbrev pub IsWorst : Counts → Level × Headline → Type 0
IsWorst d (urgent, expired_now n) = (n ≡ d.expired) × (0 < n)
IsWorst d (warn, not_checking n) = (d.expired ≡ 0) × (n ≡ d.problems) × (0 < n)
IsWorst d (notice, expiring_soon n) =
    (d.expired ≡ 0) × (d.problems ≡ 0) × (n ≡ d.expiring) × (0 < n)
IsWorst d (ok, all_healthy) = (d.expired ≡ 0) × (d.problems ≡ 0) × (d.expiring ≡ 0)
IsWorst d _ = ⊥

-- Whatever was shown before, after an answer the headline and the colour say the worst of the
-- counts: what has expired, else what does not check cleanly, else what expires soon, else that all is
-- well; and the page calls itself healthy only if an answer came that has none of these.
pub load-IsWorst :
    (d : Counts) (p : Page)
    → IsWorst d ((load (some d) p).level, (load (some d) p).headline)
      × ((load none p).level ≡ urgent)
      × ((load none p).headline ≡ unavailable)
unfolding load render headline_of
load-IsWorst d p = (worst d, refl, refl)
  where
    worst : (d : Counts) → IsWorst d (headline_of d)
    worst d =
        if-intro (IsWorst d) (ltb 0 d.expired) (λ e. (refl, ground (arith, e)))
          (λ e.
            if-intro (IsWorst d) (ltb 0 d.problems)
              (λ f. (ground (arith, e), refl, ground (arith, f)))
              (λ f.
                if-intro (IsWorst d) (ltb 0 d.expiring)
                  (λ g. (ground (arith, e), ground (arith, f), refl, ground (arith, g)))
                  (λ g. (ground (arith, e), ground (arith, f), ground (arith, g)))))
