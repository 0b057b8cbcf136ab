-- ===== src/VaultUi/Reveal.antt =====
-- What a click on a reveal button of internal/server/web/static/vault-ui.js may show.
use certguard.Base.{◌≡◌, ◌⊎◌, String, Bool, true, false, some, ◌∷◌}
use certguard.Base.Text.{Text}
use certguard.Vault.{Crypto, decrypt}
use certguard.VaultUi.{Answer, failed, refused, answered, Secret, said, Page, text_of}

-- The secret of no row has changed, and a new message is one of the script's own texts.
abbrev pub IsDiscreet : Page → Page → Type 0
IsDiscreet p q =
    (q.revealed ≡ p.revealed)
    × ((q.toasts ≡ p.toasts)
        ⊎ ((s : String) × (bad : Bool) × (q.toasts
              ≡ record { message = said s; bad = bad } ∷ p.toasts)))

-- The value that the answer holds for a page that may read it; an absent one is shown as the page
-- shows `undefined`.
abbrev pub Holds : Crypto → Bool → Answer Secret → Page → Text → Type 0
Holds c in_row (failed _) p v = ⊥
Holds c in_row (refused _ _) p v = ⊥
Holds c in_row (answered d) p v =
    ((p.zk_enabled ≡ false) × (text_of in_row d.value ≡ v))
    ⊎ ((p.zk_enabled ≡ true) × ((enc : Text) × (d.enc ≡ some enc) × (decrypt c enc p.dek ≡ some v)))
