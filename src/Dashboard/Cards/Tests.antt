-- ===== src/Dashboard/Cards/Tests.antt =====
-- Runs of the labels and of the card of problems.
use certguard.Base.{◌≡◌, refl, List, [], ◌∷◌}
use mathlib.Core.List.{Perm}
use certguard.Base.Int.{pos}
use certguard.Inventory.Items.{Item, unreachable}
use certguard.Inventory.Tests.{browser, entry}
use certguard.Dashboard.Cards.{
  net_err_label, problem_rows, no_such_host, no_dns_label, connection_refused,
}
use certguard.Dashboard.Cards.Problems.{names_of_rows, problem_names, problem_rows-problem_names}

no_dns : net_err_label browser (108 ∷ 32 ∷ no_such_host) ≡ no_dns_label
unfolding net_err_label
no_dns = refl

abbrev with_problems : Item
with_problems = record (entry (97 ∷ []) (pos 9)) {
  cert = record (entry (97 ∷ []) (pos 9)).cert {
    last_error = connection_refused;
    coverage = record { name = 98 ∷ []; status = unreachable; detail = []; subject = [] } ∷ [];
  };
}

abbrev tracked : List Item
tracked = with_problems ∷ with_problems ∷ []

four_rows :
    names_of_rows (problem_rows browser tracked)
    ≡ (97 ∷ []) ∷ (97 ∷ []) ∷ (98 ∷ []) ∷ (98 ∷ []) ∷ []
unfolding problem_rows net_err_label
four_rows = refl

problem_rows-problem_names_example :
    Perm (names_of_rows (problem_rows browser tracked)) (problem_names tracked)
problem_rows-problem_names_example = problem_rows-problem_names browser tracked
