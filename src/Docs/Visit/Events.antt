-- ===== src/Docs/Visit/Events.antt =====
-- What stays true on a page, whatever happens on it: its filter and its theme are those that the browser
-- keeps.
use lib_rabbit_job_queue.Common.{
  ◌≡◌, ap, ◌∙◌, Bool, true, false, List, [], ◌∷◌, String, All, if◌then◌else◌,
}
use lib_rabbit_job_queue.Docs.Names.{contains}
use lib_rabbit_job_queue.Docs.Filter.Sync.{Synced, filter_button_handler-Remains}
use lib_rabbit_job_queue.Docs.Theme.Kept.{Agrees, click-Agrees}
use lib_rabbit_job_queue.Docs.Load.{Site, anchor_step, click_left_toggler, click_main}
use lib_rabbit_job_queue.Docs.Visit.{
  SiteEvent, filter_button, tab, bookmark, theme_button, left_toggler, main_part, sample_ready,
  hash_change, timer, happen_on, happen_all,
}

-- Whether the event, if it is a click on a button of the filter, is on one of these names.
abbrev pub is_known : List String → SiteEvent → Bool
is_known names (filter_button name) = contains name names
is_known names _ = true

abbrev pub AreKnown : List String → List SiteEvent → Type 0
AreKnown names = All (λ e. is_known names e ≡ true)

-- The page's filter has these names and is, like its theme, the one that is kept.
pub record IsKept (names : List String) (samples : Bool) (s : Site) : Type 0 where
  pub known : s.filter.context.restricted_dependencies ≡ names
  pub filter : Synced s.filter
  pub theme : Agrees samples s.theme

if-IsKept :
    {names : List String} {samples : Bool} (b : Bool) {s t : Site}
    → IsKept names samples s
    → IsKept names samples t
    → IsKept names samples (if b then s else t)
if-IsKept true h k = h
if-IsKept false h k = k

main_part-IsKept :
    {names : List String} {samples : Bool} (s : Site)
    → IsKept names samples s
    → IsKept names samples (click_main s)
unfolding click_main
main_part-IsKept s k =
    if-IsKept s.main_closes (record { known = k.known; filter = k.filter; theme = k.theme }) k

module _ {names : List String} (samples : Bool) (s : Site) (k : IsKept names samples s) where
  theme_button-IsKept : IsKept names samples (happen_on samples theme_button s)
  unfolding happen_on
  theme_button-IsKept =
      if-IsKept s.theme_switches
        (record {
          known = k.known;
          filter = k.filter;
          theme = click-Agrees samples s.theme k.theme;
        })
        k

  left_toggler-IsKept : IsKept names samples (click_left_toggler s)
  unfolding click_left_toggler
  left_toggler-IsKept =
      if-IsKept s.left_toggles (record { known = k.known; filter = k.filter; theme = k.theme }) k

  happen_on-IsKept :
      (e : SiteEvent) → is_known names e ≡ true → IsKept names samples (happen_on samples e s)
  unfolding happen_on anchor_step
  happen_on-IsKept (filter_button name) h =
      let r =
        filter_button_handler-Remains name s.filter k.filter (ap (contains name) k.known ∙ h) in
      if-IsKept s.filter_listens (record { known = r.0 ∙ k.known; filter = r.1; theme = k.theme }) k
  happen_on-IsKept (tab target) h =
      main_part-IsKept _ (record { known = k.known; filter = k.filter; theme = k.theme })
  happen_on-IsKept (bookmark row i) h =
      main_part-IsKept _ (record { known = k.known; filter = k.filter; theme = k.theme })
  happen_on-IsKept theme_button h = theme_button-IsKept
  happen_on-IsKept left_toggler h = left_toggler-IsKept
  happen_on-IsKept main_part h = main_part-IsKept s k
  happen_on-IsKept (sample_ready i) h = record {
    known = k.known;
    filter = k.filter;
    theme = record { stored = k.theme.stored; samples = k.theme.samples };
  }
  happen_on-IsKept (hash_change hash) h = record {
    known = k.known;
    filter = k.filter;
    theme = k.theme;
  }
  happen_on-IsKept timer h = record { known = k.known; filter = k.filter; theme = k.theme }

pub happen_all-IsKept :
    {names : List String} (samples : Bool) (es : List SiteEvent) (s : Site)
    → IsKept names samples s
    → AreKnown names es
    → IsKept names samples (happen_all samples es s)
unfolding happen_all
happen_all-IsKept samples [] s k h = k
happen_all-IsKept samples (e ∷ es) s k h =
    happen_all-IsKept samples es (happen_on samples e s) (happen_on-IsKept samples s k e h.0) h.1
