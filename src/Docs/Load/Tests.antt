-- ===== src/Docs/Load/Tests.antt =====
-- A page that is opened at a function, in a browser that has kept the tab with the types.
use lib_rabbit_job_queue.Common.{◌≡◌, refl, true, false, none, some, [], ◌∷◌, String}
use lib_rabbit_job_queue.Docs.Page.{alias}
use lib_rabbit_job_queue.Docs.Texts.{codes}
use lib_rabbit_job_queue.Docs.Selector.{css_value, css_value_from}
use lib_rabbit_job_queue.Docs.Sections.{Child, button, div, TabPage, toggle_sections, active_button}
use lib_rabbit_job_queue.Docs.Anchors.{Link, find_link, search_for_tab, fire_scroll}
use lib_rabbit_job_queue.Docs.Anchors.Highlight.{HighlightsOne}
use lib_rabbit_job_queue.Docs.Theme.{undefined}
use lib_rabbit_job_queue.Docs.Load.{Site, finished, load}
use lib_rabbit_job_queue.Docs.Load.Anchor.{full, load-anchor}

abbrev tab : String → Child
tab key = record { tag = button; togglable = some key; is_active = false }

abbrev body : String → Child
body key = record { tag = div; togglable = some key; is_active = false }

abbrev dispatch : Link
dispatch = record {
  name = codes "dispatch";
  togglables = none ∷ some "Functions" ∷ [];
  content = some 4;
}

abbrev tabs : TabPage
tabs = record {
  sections = (record (tab "Types") { is_active = true } ∷ tab "Functions" ∷ []) ∷ [];
  bodies = (body "Types" ∷ body "Functions" ∷ []) ∷ [];
  active_tab = some "Types";
}

abbrev delivered : Site
delivered = record {
  filter = record {
    context = record { dependencies = []; restricted_dependencies = []; active_filters = alias };
    inactive_filters = none;
    elements = [];
    buttons = [];
    hinted = [];
    content_hidden = false;
    notices = 0;
    notice_shown = false;
  };
  tabs = tabs;
  anchors = record {
    links = dispatch ∷ [];
    highlight = λ x. false;
    highlighted = none;
    has_offset = false;
    waiting = [];
    scrolled = [];
    errors = 0;
  };
  theme = record {
    stored = none;
    is_dark = false;
    playground = none;
    instances = [];
    destroyed = [];
  };
  left_is_open = false;
  filter_listens = false;
  left_toggles = false;
  main_closes = false;
  theme_switches = false;
}

load-anchor_example :
    (q : Site) × (load (full false undefined) [] (codes "#dispatch") delivered ≡ finished q)
    × (q.tabs ≡ toggle_sections "Functions" tabs)
    × HighlightsOne q.anchors
    × (q.anchors.highlighted ≡ some 4)
    × ((fire_scroll q.anchors.waiting q.anchors).scrolled ≡ dispatch ∷ [])
unfolding active_button css_value css_value_from find_link search_for_tab codes
load-anchor_example =
    load-anchor false undefined [] (codes "#dispatch") delivered dispatch "Functions" (refl, tt)
      refl refl (λ x. refl) refl refl
