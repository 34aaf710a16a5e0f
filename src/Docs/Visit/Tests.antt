-- ===== src/Docs/Visit/Tests.antt =====
-- A visit of a page: its reader switches the source set ":dokkaHtml/main" off, turns the dark mode on and
-- chooses the functions, and opens the page again.
use lib_rabbit_job_queue.Common.{◌≡◌, refl, true, false, ◌&&◌, none, some, List, [], ◌∷◌, String}
use lib_rabbit_job_queue.Docs.Names.{contains}
use lib_rabbit_job_queue.Docs.Page.{alias, active}
use lib_rabbit_job_queue.Docs.Sections.{
  Child, button, div, toggle_sections, active_button, has_tab, init_tabs, show_bodies,
  toggle_sections_event_handler, show_corresponding_tab_body, restore_tab, activate_first,
  activate_body,
}
use lib_rabbit_job_queue.Docs.Texts.{codes}
use lib_rabbit_job_queue.Docs.Selector.{css_value, css_value_from}
use lib_rabbit_job_queue.Docs.Anchors.{
  Link, find_link, handle_anchor, search_for_tab, scroll_to_element_in_content,
}
use lib_rabbit_job_queue.Docs.Anchors.Highlight.{HighlightsOne}
use lib_rabbit_job_queue.Docs.Visit.Anchored.{early_page, happen_all-HighlightsOne}
use lib_rabbit_job_queue.Docs.Filter.{sourceset_dependencies}
use lib_rabbit_job_queue.Docs.Theme.{defined}
use lib_rabbit_job_queue.Docs.Load.{
  Site, finished, load, after_tabs, init_hiding_left_navigation, theme_step, click_left_toggler,
  click_main, anchor_step,
}
use lib_rabbit_job_queue.Docs.Load.Anchor.{full}
use lib_rabbit_job_queue.Docs.Visit.{
  Storage, kept_by, open_site, SiteEvent, filter_button, tab, theme_button, left_toggler,
  hash_change, timer, EarlyEvent, early_hash_change, early_timer, happen_early, happen_early_all,
  happen_all, happen_on, deliver_page,
}
use lib_rabbit_job_queue.Docs.Visit.Next.{site_of, open_site-kept_by}

abbrev row : String → Child
row key = record { tag = button; togglable = some key; is_active = false }

abbrev body : String → Child
body key = record { tag = div; togglable = some key; is_active = false }

abbrev dispatch : Link
dispatch = record {
  name = codes "dispatch";
  togglables = none ∷ some "Functions" ∷ [];
  content = some 4;
}

abbrev delivered : Site
delivered = record {
  filter = record {
    context = record { dependencies = []; restricted_dependencies = []; active_filters = alias };
    inactive_filters = none;
    elements = record { set = "jvm" ∷ ":dokkaHtml/main" ∷ []; current = [] } ∷ [];
    buttons =
        record { filter = "jvm"; is_active = true }
        ∷ record { filter = ":dokkaHtml/main"; is_active = true }
        ∷ [];
    hinted = [];
    content_hidden = false;
    notices = 0;
    notice_shown = false;
  };
  tabs = record {
    sections = (record (row "Types") { is_active = true } ∷ row "Functions" ∷ []) ∷ [];
    bodies = (body "Types" ∷ body "Functions" ∷ []) ∷ [];
    active_tab = none;
  };
  anchors = record {
    links = dispatch ∷ [];
    highlight = λ x. false;
    highlighted = none;
    has_offset = false;
    waiting = [];
    scrolled = [];
    errors = 0;
  };
  theme = record {
    stored = none;
    is_dark = false;
    playground = none;
    instances = [];
    destroyed = [];
  };
  left_is_open = false;
  filter_listens = false;
  left_toggles = false;
  main_closes = false;
  theme_switches = false;
}

-- Nothing is kept yet.
abbrev nothing : Storage
nothing = record { inactive_filters = none; active_tab = none; dark_mode = none }

abbrev opened : Site
opened = site_of (open_site (full true defined) sourceset_dependencies [] nothing delivered)

abbrev visit : List SiteEvent
visit = filter_button ":dokkaHtml/main" ∷ theme_button ∷ tab (some "Functions") ∷ left_toggler ∷ []

open_site-kept_by_example :
    (r : Site) × (open_site
        (full true defined)
        sourceset_dependencies
        []
        (kept_by (happen_all true visit opened))
        delivered
      ≡ finished r)
    × (r.theme.is_dark ≡ (happen_all true visit opened).theme.is_dark)
    × (r.theme.playground ≡ (happen_all true visit opened).theme.playground)
    × (r.tabs ≡ toggle_sections "Functions" delivered.tabs)
    × ((s : String)
        → (contains s ("jvm" ∷ ":dokkaHtml/main" ∷ []) && contains s (active r.filter)) ≡ (
            contains s ("jvm" ∷ ":dokkaHtml/main" ∷ [])
            && contains s (active (happen_all true visit opened).filter)))
unfolding open_site deliver_page happen_all happen_on load after_tabs init_hiding_left_navigation
    theme_step init_tabs show_bodies show_corresponding_tab_body active_button activate_first
    activate_body restore_tab toggle_sections toggle_sections_event_handler has_tab
    click_left_toggler click_main
open_site-kept_by_example =
    open_site-kept_by defined sourceset_dependencies [] nothing delivered opened delivered visit
      "Functions" (refl, tt) (refl, tt) refl refl (refl, (refl, (refl, (refl, tt)))) refl refl

-- Before the page has loaded its hash changes to that of a function, and the timer of that fires; then the page is
-- at its top, and then at the function again.
abbrev dawn : List EarlyEvent
dawn = early_hash_change (codes "#dispatch") ∷ early_timer ∷ []

abbrev walk : List SiteEvent
walk = timer ∷ hash_change [] ∷ theme_button ∷ hash_change (codes "#dispatch") ∷ timer ∷ []

happen_all-HighlightsOne_example :
    (p : Site) × (load
        (full true defined)
        sourceset_dependencies
        (codes "#dispatch")
        (early_page nothing dawn delivered)
      ≡ finished p)
    × HighlightsOne (happen_all true walk p).anchors
    × ((happen_all true walk p).anchors.highlighted ≡ some 4)
    × ((happen_all true walk p).anchors.errors ≡ 1)
unfolding codes active_button css_value css_value_from find_link happen_early_all happen_early
    handle_anchor deliver_page anchor_step search_for_tab scroll_to_element_in_content
    toggle_sections
happen_all-HighlightsOne_example =
    happen_all-HighlightsOne true defined sourceset_dependencies [] nothing delivered dawn walk
      (refl, tt) (λ x. refl)
