-- ===== src/Prefs/Tests.antt =====
-- Runs of the preferences.
use certguard.Base.{◌≡◌, refl, none, some}
use certguard.Prefs.{cg_pages, home_redirect}
use certguard.Prefs.Home.{Offered, home_redirect-Offered}

script_url : home_redirect cg_pages "/" (some "javascript:alert(1)") ≡ none
unfolding home_redirect
script_url = refl

home_redirect-Offered_example :
    Offered "/timeline" cg_pages × (home_redirect cg_pages "/timeline" (some "/timeline") ≡ none)
unfolding home_redirect
home_redirect-Offered_example = home_redirect-Offered "/" (some "/timeline") "/timeline" refl
