-- ===== src/Nav/Tests.antt =====
-- Runs of the menu and of its links.
use certguard.Base.{◌≡◌, refl, true, false, List, [], ◌∷◌}
use certguard.Nav.{
  Event, click_trigger, enter, leave, time_out, click_page, handle, run, fresh, open_menu, set_open,
  is_current,
}
use certguard.Nav.Phases.{phase, follow, IsSteady, run-follow, leave-shuts}

fresh-IsSteady : IsSteady fresh
fresh-IsSteady = record { told = refl; up = λ h. absurd cc; calm = λ h. refl }

abbrev visit : List Event
visit = enter ∷ leave ∷ click_trigger ∷ time_out ∷ click_page false ∷ []

run-follow_example :
    (phase (run true visit fresh) ≡ follow true visit (phase fresh))
    × IsSteady (run true visit fresh)
run-follow_example = run-follow true visit fresh fresh-IsSteady

leave-shuts_example :
    (handle true time_out
      (run true (leave ∷ click_page true ∷ []) (handle true leave (open_menu fresh)))).is_open
    ≡ false
unfolding open_menu set_open
leave-shuts_example =
    leave-shuts (leave ∷ click_page true ∷ []) (open_menu fresh) refl (tt, (tt, tt))

root_only : is_current (47 ∷ []) (47 ∷ 105 ∷ []) ≡ false
unfolding is_current
root_only = refl
