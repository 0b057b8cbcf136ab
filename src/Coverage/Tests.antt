-- ===== src/Coverage/Tests.antt =====
-- Runs of the coverage page on two certificates.
use certguard.Base.{ℕ, zero, suc, ◌≡◌, refl, false, Option, none, List, [], ◌∷◌, map}
use certguard.Base.Int.{ℤ, pos}
use certguard.Base.Sort.{sort}
use certguard.Base.Text.{Text}
use certguard.Inventory.Items.{Covered, Item, Browser, unreachable}
use certguard.Coverage.{State, Group, all_names, match_verdict, ordered}
use certguard.VaultUi.{Answer, refused, answered, Accepted}
use certguard.Coverage.Checks.{Checks}
use certguard.Coverage.Checks.Ends.{Ends}

abbrev second_refused : ℕ → Answer Accepted
second_refused zero = answered tt
second_refused (suc n) = refused 502 "bad gateway"

abbrev idle : Checks
idle = record { busy = []; disabled = false; progress = none }

abbrev no_time : Text → Option ℤ
no_time s = none

abbrev plain_browser : Browser
plain_browser = record {
  lower = λ s. s;
  locale_after = λ s t. false;
  time = no_time;
  iso_day = λ s. s;
  show = λ n. [];
}

abbrev certificate : ℕ → List Text → List Covered → Item
certificate id names coverage = record {
  cert = record {
    id = id;
    name = id ∷ [];
    category = [];
    kind = [];
    host = [];
    port = 0;
    issuer = [];
    subject = [];
    notes = [];
    dns_names = names;
    has_secret = false;
    last_error = [];
    coverage = coverage;
    expires_at = [];
    last_scanned_at = [];
  };
  days_remaining = pos 9;
}

abbrev covered : ℕ → Text → Covered
covered n status = record { name = n ∷ []; status = status; detail = []; subject = [] }

-- The first is not checked, and the second has a dead name.
abbrev entries : List Item
entries =
    certificate 1 ((97 ∷ []) ∷ (98 ∷ []) ∷ []) []
    ∷ certificate 2 ((99 ∷ []) ∷ []) (covered 99 match_verdict ∷ covered 100 unreachable ∷ [])
    ∷ []

abbrev everything : State
everything = record { q = []; status = all_names }

dead_first : map (λ (g : Group). g.id) (ordered plain_browser everything entries) ≡ 2 ∷ 1 ∷ []
unfolding ordered sort
dead_first = refl
