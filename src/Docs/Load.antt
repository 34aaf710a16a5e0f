-- ===== src/Docs/Load.antt =====
-- docs/dokka/scripts/platform-content-handler.js: what a page does when it has loaded, part after part, and
-- its left column. The parts that a page may lack are arguments.
pub mod Anchor
mod Tests
use lib_rabbit_job_queue.Common.{
  Bool, true, false, not, Option, none, some, List, String, if◌then◌else◌,
}
use lib_rabbit_job_queue.Docs.Page.{Page}
use lib_rabbit_job_queue.Docs.Filter.{initialize_filtering}
use lib_rabbit_job_queue.Docs.Texts.{Text}
use lib_rabbit_job_queue.Docs.Sections.{TabPage, Loaded, loaded, type_error, init_tabs}
use lib_rabbit_job_queue.Docs.Anchors.{Anchors, handle_anchor}
use lib_rabbit_job_queue.Docs.Theme.{
  Lookup, samples_are_enabled, Theme, dark_mode_switch, init_playground, theme_for, saved_dark_mode,
}

-- The elements that a page has, by their ids: "filter-section", "leftToggler", "main",
-- "navigation-wrapper" and "theme-toggle-button"; and what the name `KotlinPlayground` stands for.
pub record Elements : Type 0 where
  pub filter_section : Bool
  pub left_toggler : Bool
  pub main : Bool
  pub navigation_wrapper : Bool
  pub theme_toggle_button : Bool
  pub kotlin_playground : Lookup

-- `left_is_open` is the class "open" of the left column; the last four are whether the handlers of the
-- filter section, of the left column and of the theme button are set.
pub record Site : Type 0 where
  pub filter : Page
  pub tabs : TabPage
  pub anchors : Anchors
  pub theme : Theme
  pub left_is_open : Bool
  pub filter_listens : Bool
  pub left_toggles : Bool
  pub main_closes : Bool
  pub theme_switches : Bool

-- The handler of the event runs to its end, or throws a TypeError on the way.
pub data LoadedSite : Type 0 where
  finished : Site → LoadedSite
  stopped : Site → LoadedSite

abbrev pub then_do : LoadedSite → (Site → LoadedSite) → LoadedSite
then_do (finished s) f = f s
then_do (stopped s) f = stopped s

unfoldable pub filter_step : Bool → List (String × List String) → Site → Site
filter_step false dependencies s = s
filter_step true dependencies s = record s {
  filter = initialize_filtering dependencies s.filter;
  filter_listens = true;
}

abbrev pub with_tabs : Site → Loaded → LoadedSite
with_tabs s (loaded p) = finished (record s { tabs = p })
with_tabs s (type_error p) = stopped (record s { tabs = p })

unfoldable pub anchor_step : Text → Site → Site
anchor_step hash s =
    let (p, a) = handle_anchor hash (s.tabs, s.anchors) in record s { tabs = p; anchors = a }

unfoldable pub init_hiding_left_navigation : Elements → Site → LoadedSite
init_hiding_left_navigation e s =
    if not e.left_toggler
    then stopped s
    else if not e.main
    then stopped (record s { left_toggles = true })
    else finished (record s { left_toggles = true; main_closes = true })

-- The assignment of `topNavbarOffset`.
abbrev pub set_offset : Bool → Site → Site
set_offset b s = record s { anchors = record s.anchors { has_offset = b } }

-- `darkModeSwitch`, whose last step sets the handler of the button.
unfoldable pub theme_step : Elements → Site → LoadedSite
theme_step e s =
    let s' = record s {
      theme = dark_mode_switch (samples_are_enabled e.kotlin_playground) s.theme;
    } in
    if e.theme_toggle_button then finished (record s' { theme_switches = true }) else stopped s'

unfoldable pub after_tabs : Elements → Text → Site → LoadedSite
unfolding anchor_step
after_tabs e hash s =
    then_do (init_hiding_left_navigation e (anchor_step hash s))
      (λ r. theme_step e (set_offset e.navigation_wrapper r))

unfoldable pub load : Elements → List (String × List String) → Text → Site → LoadedSite
unfolding filter_step
load e dependencies hash s =
    let s' = filter_step e.filter_section dependencies s in
    then_do (with_tabs s' (init_tabs s'.tabs)) (after_tabs e hash)

-- The handlers that open and close the left column, on a page that has one.
unfoldable pub click_left_toggler : Site → Site
click_left_toggler s = if s.left_toggles then record s { left_is_open = not s.left_is_open } else s

unfoldable pub click_main : Site → Site
click_main s = if s.main_closes then record s { left_is_open = false } else s
