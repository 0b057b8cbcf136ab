-- ===== src/Prefs.antt =====
-- internal/server/web/static/prefs-init.js and internal/server/web/static/pages.js: the preferences
-- that a page applies before it paints, and the redirect from "/".
pub mod Home
mod Tests
use certguard.Base.{
  String, Bool, true, false, ◌||◌, Option, none, some, List, [], ◌∷◌, str_eq, if◌then◌else◌,
}

-- One entry of `CG_PAGES`; the third field may be absent.
pub record PageEntry : Type 0 where
  pub path : String
  pub label : String
  pub can_be_home : Option Bool

abbrev pub page_entry : String → String → PageEntry
page_entry path label = record { path = path; label = label; can_be_home = none }

abbrev pub cg_pages : List PageEntry
cg_pages =
    page_entry "/" "Dashboard"
    ∷ page_entry "/inventory" "Inventory"
    ∷ page_entry "/timeline" "Timeline"
    ∷ page_entry "/coverage" "Coverage"
    ∷ page_entry "/issuers" "Issuers"
    ∷ page_entry "/activity" "Activity"
    ∷ record { path = "/settings"; label = "Settings"; can_be_home = some false }
    ∷ []

-- `pages[i][2] === false`
abbrev pub is_excluded : Option Bool → Bool
is_excluded none = false
is_excluded (some true) = false
is_excluded (some false) = true

-- The loop of `homePath`.
unfoldable pub look_up : String → List PageEntry → String
look_up v [] = ""
look_up v (p ∷ ps) =
    let rest = look_up v ps in
    if str_eq p.path v then (if is_excluded p.can_be_home then "" else v) else rest

abbrev pub or_empty : Option String → String
or_empty none = ""
or_empty (some v) = v

-- `homePath`
unfoldable pub home_path : List PageEntry → Option String → String
unfolding look_up
home_path pages stored =
    let v = or_empty stored in
    if str_eq v ""
    then ""
    else if str_eq v "dashboard"
    then "/"
    else if str_eq v "inventory"
    then "/inventory"
    else look_up v pages

-- Where the page at a path is replaced by another, and by which.
unfoldable pub home_redirect : List PageEntry → String → Option String → Option String
unfolding home_path
home_redirect pages pathname stored =
    let home = home_path pages stored in
    if str_eq pathname "/"
    then (if str_eq home "" || str_eq home "/" then none else some home)
    else none

-- `data-nav`
unfoldable pub nav_style : Option String → String
nav_style nav =
    if str_eq (or_empty nav) "text" || str_eq (or_empty nav) "icons" then or_empty nav else "menu"

-- `data-theme`, if there is one to set
unfoldable pub theme_attribute : Option String → Option String
theme_attribute none = none
theme_attribute (some t) = if str_eq t "" then none else some t
