-- ===== src/Dashboard/Cards/Short.antt =====
-- The lengths of the labels of errors in internal/server/web/static/dashboard.js.
use certguard.Base.{
  ℕ, zero, suc, ◌+◌, ◌≤◌, refl, false, [], ◌∷◌, ◌++◌, take, length, length-append, if-intro, ltb,
  leb→le, arith,
}
use certguard.Base.Text.{Text, is_set}
use certguard.Inventory.Items.{Browser}
use certguard.Inventory.Filter.{trim}
use certguard.Dashboard.Cards.{
  collapse, shorten, short_err, has_one_of, any_timeout, net_err_label, no_such_host,
  server_misbehaving, dns, connection_refused, connection_reset, no_route_to_host,
  network_is_unreachable, certificate_word, x509,
}

take-le : (n : ℕ) (s : Text) → length (take n s) ≤ n
take-le zero s = omega arith
take-le (suc n) [] = omega arith
take-le (suc n) (c ∷ cs) = omega (arith, take-le n cs)

cut-le : (n : ℕ) (s : Text) → length (take n s ++ (8230 ∷ [])) ≤ n + 1
cut-le n s = omega (arith, length-append (take n s) (8230 ∷ []), take-le n s)

IsShort : ℕ → Text → Type 0
IsShort n s = length s ≤ n

shorten-IsShort : (n : ℕ) (s : Text) → length (shorten n s) ≤ n + 1
unfolding IsShort
shorten-IsShort n s =
    if-intro (IsShort (n + 1)) (ltb n (length s)) (λ _. cut-le n s) (λ e. ground (arith, e))

-- Whatever the error says, its pill has at most 23 code units, and its note in the card of the
-- endpoints at most 45.
pub net_err_label-le :
    (b : Browser) (s : Text) → (length (net_err_label b s) ≤ 23) × (length (short_err s) ≤ 45)
unfolding net_err_label short_err IsShort
net_err_label-le b s =
    let P = IsShort 23 in
    let short = trim (collapse false s) in
    let t = b.lower s in
    (
      if-intro P (has_one_of (no_such_host ∷ server_misbehaving ∷ dns ∷ []) t)
          (λ _. leb→le _ 23 refl)
          (λ _.
            if-intro P (has_one_of (connection_refused ∷ []) t) (λ _. leb→le _ 23 refl)
              (λ _.
                if-intro P (has_one_of any_timeout t) (λ _. leb→le _ 23 refl)
                  (λ _.
                    if-intro P (has_one_of (connection_reset ∷ []) t) (λ _. leb→le _ 23 refl)
                      (λ _.
                        if-intro P (has_one_of (no_route_to_host ∷ []) t) (λ _. leb→le _ 23 refl)
                          (λ _.
                            if-intro P (has_one_of (network_is_unreachable ∷ []) t)
                              (λ _. leb→le _ 23 refl)
                              (λ _.
                                if-intro P (has_one_of (certificate_word ∷ x509 ∷ []) t)
                                  (λ _. leb→le _ 23 refl)
                                  (λ _.
                                    if-intro P (ltb 22 (length short)) (λ _. cut-le 22 short)
                                      (λ e.
                                        if-intro (IsShort 23) (is_set short)
                                          (λ _. ground (arith, e)) (λ _. leb→le 6 23 refl))))))))),
      shorten-IsShort 44 short,
    )
