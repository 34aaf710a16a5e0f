-- ===== src/Docs/Visit.antt =====
-- docs/dokka/scripts/platform-content-handler.js: a visit of one page, from its loading through the
-- events on it, and what the browser keeps of it for the next page.
pub mod Events
pub mod Next
pub mod Anchored
mod Tests
use lib_rabbit_job_queue.Common.{
  ℕ, zero, suc, Bool, true, false, Option, none, some, List, [], ◌∷◌, String, if◌then◌else◌,
}
use lib_rabbit_job_queue.Docs.Texts.{Text}
use lib_rabbit_job_queue.Docs.Page.{Hinted, Page}
use lib_rabbit_job_queue.Docs.Filter.{filter_button_handler}
use lib_rabbit_job_queue.Docs.Filter.Sync.{page_of}
use lib_rabbit_job_queue.Docs.Tabs.{toggle_platform_dependent}
use lib_rabbit_job_queue.Docs.Sections.{TabPage, toggle_sections_event_handler}
use lib_rabbit_job_queue.Docs.Anchors.{fire_scroll}
use lib_rabbit_job_queue.Docs.Theme.{Theme, head_script, get_instance, click_theme_button}
use lib_rabbit_job_queue.Docs.Load.{
  Elements, Site, LoadedSite, load, anchor_step, click_left_toggler, click_main,
}

-- The values under "inactive-filters", "active-tab" and "dokka-dark-mode" in `localStorage`.
pub record Storage : Type 0 where
  pub inactive_filters : Option (List String)
  pub active_tab : Option String
  pub dark_mode : Option Bool

pub kept_by : Site → Storage
kept_by s = record {
  inactive_filters = s.filter.inactive_filters;
  active_tab = s.tabs.active_tab;
  dark_mode = s.theme.stored;
}

-- A page as it is delivered, in a browser that has kept the values, once the script in its head has run.
pub deliver_page : Storage → Site → Site
deliver_page kept s = record s {
  filter = record s.filter { inactive_filters = kept.inactive_filters };
  tabs = record s.tabs { active_tab = kept.active_tab };
  theme = head_script (record {
    stored = kept.dark_mode;
    is_dark = false;
    playground = none;
    instances = [];
    destroyed = [];
  });
}

pub open_site : Elements → List (String × List String) → Text → Storage → Site → LoadedSite
open_site e dependencies hash kept s = load e dependencies hash (deliver_page kept s)

-- What can happen on a page: a click on a button of the filter, on an element in a row of tabs with its
-- `data-togglable`, on a bookmark by its row and its place, on the theme button, on the toggler of the left
-- column or on the main part; a sample is ready, the hash changes, or a timer fires.
pub data SiteEvent : Type 0 where
  filter_button : String → SiteEvent
  tab : Option String → SiteEvent
  bookmark : ℕ → ℕ → SiteEvent
  theme_button left_toggler main_part : SiteEvent
  sample_ready : ℕ → SiteEvent
  hash_change : Text → SiteEvent
  timer : SiteEvent

abbrev pub at_place : {A : Type 0} → ℕ → (A → A) → List A → List A
at_place k f [] = []
at_place zero f (x ∷ xs) = f x ∷ xs
at_place (suc k) f (x ∷ xs) = x ∷ at_place k f xs

-- A row of tabs has its handler twice, by the load listener and by `initTabs`.
abbrev pub click_tab : Option String → TabPage → TabPage
click_tab target p = toggle_sections_event_handler target (toggle_sections_event_handler target p)

-- `window.onhashchange`.
abbrev pub on_hash_change : Text → Site → Site
on_hash_change hash s = anchor_step hash s

-- What can happen before a page has loaded, once its script has run, which sets `window.onhashchange`: the hash
-- changes, or a timer fires that such a change has set. The other handlers are set as the page loads. The elements of
-- the page are there already.
pub data EarlyEvent : Type 0 where
  early_hash_change : Text → EarlyEvent
  early_timer : EarlyEvent

pub happen_early : EarlyEvent → Site → Site
happen_early (early_hash_change hash) s = on_hash_change hash s
happen_early early_timer s = record s { anchors = fire_scroll s.anchors.waiting s.anchors }

unfoldable pub happen_early_all : List EarlyEvent → Site → Site
happen_early_all [] s = s
happen_early_all (e ∷ es) s = happen_early_all es (happen_early e s)

-- A click on a tab or on a bookmark, which are inside the main part, goes on to that.
pub happen_on : (samples : Bool) → SiteEvent → Site → Site
happen_on samples (filter_button name) s =
    if s.filter_listens
    then record s { filter = page_of (filter_button_handler name s.filter) }
    else s
happen_on samples (tab target) s = click_main (record s { tabs = click_tab target s.tabs })
happen_on samples (bookmark row k) s = click_main (record s {
  filter = record s.filter { hinted = at_place row (toggle_platform_dependent k) s.filter.hinted };
})
happen_on samples theme_button s =
    if s.theme_switches then record s { theme = click_theme_button samples s.theme } else s
happen_on samples left_toggler s = click_left_toggler s
happen_on samples main_part s = click_main s
happen_on samples (sample_ready i) s = record s { theme = get_instance i s.theme }
happen_on samples (hash_change hash) s = on_hash_change hash s
happen_on samples timer s = record s { anchors = fire_scroll s.anchors.waiting s.anchors }

unfoldable pub happen_all : Bool → List SiteEvent → Site → Site
happen_all samples [] s = s
happen_all samples (e ∷ es) s = happen_all samples es (happen_on samples e s)
