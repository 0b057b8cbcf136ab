-- ===== src/Common/Tests.antt =====
-- Runs of the shared helpers.
use certguard.Base.{All, ◌≡◌, refl, true, false, Option, none, some, [], ◌∷◌}
use certguard.Base.Int.{ℤ, pos}
use certguard.Base.Text.{Text}
use certguard.Common.Escape.{escape_html, decode, IsHarmless, decode-escape_html}
use certguard.Common.Chain.{Link, chain_risk, IsFirstRisk, chain_risk-IsFirstRisk}
use certguard.Common.Ago.{minutes, rel_time, Tells, rel_time-Tells}
use certguard.Common.Whoami.{Whoami}

-- `<b>"&'`
abbrev markup : Text
markup = 60 ∷ 98 ∷ 62 ∷ 34 ∷ 38 ∷ 39 ∷ []

decode-escape_html_example :
    All IsHarmless (escape_html markup) × (decode none (escape_html markup) ≡ markup)
decode-escape_html_example = decode-escape_html markup

-- A text of one character is read as its code, any other is no date.
abbrev parse_one : Text → Option ℤ
parse_one [] = none
parse_one (d ∷ []) = some (pos d)
parse_one (_ ∷ _ ∷ _) = none

abbrev link_at : Text → Link
link_at t = record { subject = 105 ∷ []; sha256 = []; not_after = t }

chain_risk-IsFirstRisk_example :
    IsFirstRisk parse_one
      (parse_one (90 ∷ []))
      (link_at (95 ∷ []) ∷ link_at (70 ∷ []) ∷ link_at [] ∷ link_at (60 ∷ []) ∷ [])
      (chain_risk parse_one
        (90 ∷ [])
        (link_at (95 ∷ []) ∷ link_at (70 ∷ []) ∷ link_at [] ∷ link_at (60 ∷ []) ∷ []))
chain_risk-IsFirstRisk_example =
    chain_risk-IsFirstRisk parse_one (90 ∷ [])
      (link_at (95 ∷ []) ∷ link_at (70 ∷ []) ∷ link_at [] ∷ link_at (60 ∷ []) ∷ [])

abbrev passphrase_vault : Whoami
passphrase_vault = record {
  secrets_enabled = true;
  zk_enabled = false;
  vault_passphrase = true;
  vault_unlocked = false;
}

-- 50 seconds are labelled as no minutes.
fifty_seconds : rel_time (pos 50000) ≡ minutes 0
unfolding rel_time
fifty_seconds = refl

rel_time-Tells_example : Tells 7300000 (rel_time (pos 7300000))
rel_time-Tells_example = rel_time-Tells (pos 7300000)
