-- ===== src/Docs/Visit/Next.antt =====
-- The page that is opened after a visit: what it takes over from the page that was left.
use lib_rabbit_job_queue.Common.{
  ◌≡◌, refl, sym, ap, ◌∙◌, Bool, true, some, List, [], String, subst, ◌&&◌, Bool-cases, inl, inr,
}
use lib_rabbit_job_queue.Docs.Names.{contains}
use lib_rabbit_job_queue.Docs.Page.{Page, active}
use lib_rabbit_job_queue.Docs.Filter.{cached}
use lib_rabbit_job_queue.Docs.Filter.Sync.{Synced}
use lib_rabbit_job_queue.Docs.Filter.Reload.{filter_names, initialize_frame}
use lib_rabbit_job_queue.Docs.Sections.{
  TabPage, Loaded, loaded, type_error, toggle_sections, init_tabs, has_tab,
}
use lib_rabbit_job_queue.Docs.Sections.Restore.{CanShow, init_tabs_kept}
use lib_rabbit_job_queue.Docs.Sections.Twice.{toggle_sections-record}
use lib_rabbit_job_queue.Docs.Anchors.{handle_anchor}
use lib_rabbit_job_queue.Docs.Anchors.Found.{handle_anchor-nil}
use lib_rabbit_job_queue.Docs.Theme.{Theme, Lookup, samples_are_enabled, open_page}
use lib_rabbit_job_queue.Docs.Theme.Kept.{Agrees, sample_theme, open_page-Agrees, open_page-is_dark}
use lib_rabbit_job_queue.Docs.Load.{Site, LoadedSite, finished, stopped, filter_step}
use lib_rabbit_job_queue.Docs.Load.Anchor.{full, load-full}
use lib_rabbit_job_queue.Docs.Texts.{Text}
use lib_rabbit_job_queue.Docs.Visit.{
  Storage, kept_by, deliver_page, open_site, SiteEvent, happen_all,
}
use lib_rabbit_job_queue.Docs.Visit.Events.{AreKnown, IsKept, happen_all-IsKept}

abbrev tabs_of : Loaded → TabPage
tabs_of (loaded p) = p
tabs_of (type_error p) = p

abbrev pub site_of : LoadedSite → Site
site_of (finished s) = s
site_of (stopped s) = s

-- A page that opens takes its filter and its theme from what is kept.
open_site-IsKept :
    (playground : Lookup) (deps : List (String × List String)) (hash : Text) (kept : Storage)
    (s : Site)
    → CanShow s.tabs.bodies s.tabs.sections
    → (q : Site) × (open_site (full true playground) deps hash kept s ≡ finished q)
      × IsKept (filter_names s.filter) (samples_are_enabled playground) q
      × (cached q.filter.inactive_filters ≡ cached kept.inactive_filters)
      × (q.theme ≡ open_page (samples_are_enabled playground) kept.dark_mode)
      × (q.tabs
          ≡ (handle_anchor hash (tabs_of (init_tabs (deliver_page kept s).tabs), s.anchors)).0)
unfolding open_site deliver_page filter_step open_page
open_site-IsKept playground deps hash kept s shows =
    let (q, r, e, _, i, f, d, t, _) =
      load-full true playground deps hash (deliver_page kept s) shows in
    let (names, same, synced) = initialize_frame deps (deliver_page kept s).filter in
    (
      q,
      e,
      record {
        known = ap (λ (p : Page). p.context.restricted_dependencies) f ∙ names;
        filter = subst Synced (sym f) synced;
        theme =
            subst (Agrees (samples_are_enabled playground)) (sym d)
              (open_page-Agrees (samples_are_enabled playground) kept.dark_mode);
      },
      ap (λ p. cached p.inactive_filters) f ∙ ap cached same,
      d,
      t ∙ ap (λ x. (handle_anchor hash (tabs_of x, s.anchors)).0) (sym i),
    )

-- What is known of a page by its visit, whatever happened on it.
visit-IsKept :
    (playground : Lookup) (deps : List (String × List String)) (hash : Text) (kept : Storage)
    (a p : Site) (es : List SiteEvent)
    → CanShow a.tabs.bodies a.tabs.sections
    → open_site (full true playground) deps hash kept a ≡ finished p
    → AreKnown (filter_names a.filter) es
    → IsKept
        (filter_names a.filter)
        (samples_are_enabled playground)
        (happen_all (samples_are_enabled playground) es p)
visit-IsKept playground deps hash kept a p es shows opened known =
    let (q, e, k, _, _, _) = open_site-IsKept playground deps hash kept a shows in
    happen_all-IsKept (samples_are_enabled playground) es p
      (subst (IsKept (filter_names a.filter) (samples_are_enabled playground))
        (ap site_of (sym e ∙ opened)) k)
      known

same_filter :
    (names : List String) (samples : Bool) (p q : Site)
    → IsKept names samples p
    → IsKept names samples q
    → cached q.filter.inactive_filters ≡ cached p.filter.inactive_filters
    → (s : String)
    → (contains s names && contains s (active q.filter))
      ≡ (contains s names && contains s (active p.filter))
same_filter names samples p q k h same s = elim (Bool-cases (contains s names)) [
  | inl y ↦
      rw (h.filter s (ap (contains s) h.known ∙ y), k.filter s (ap (contains s) k.known ∙ y), same)
        refl
  | inr n ↦ rw n refl
]

-- After a visit of a page, whatever happened on it since it had loaded, the page that is opened next loads to its end. It is
-- dark if and only if the page that was left was, its samples, if there are any, have the theme that those
-- had, it has the same source sets of the filter active, and it shows the tab that was chosen last as if it
-- had been clicked on it. Both pages must have the elements of their frame and be able to show the tabs that
-- they are delivered with; the next page must have the same names in its filter and that tab, and be opened
-- without a hash, and the clicks on filter buttons must have been on buttons of the filter.
pub open_site-kept_by :
    (playground : Lookup) (deps : List (String × List String)) (hash : Text) (kept : Storage)
    (a p b : Site) (es : List SiteEvent) (key : String)
    → CanShow a.tabs.bodies a.tabs.sections
    → CanShow b.tabs.bodies b.tabs.sections
    → filter_names b.filter ≡ filter_names a.filter
    → open_site (full true playground) deps hash kept a ≡ finished p
    → AreKnown (filter_names a.filter) es
    → (happen_all (samples_are_enabled playground) es p).tabs.active_tab ≡ some key
    → has_tab key b.tabs.sections ≡ true
    → (r : Site) × (open_site
          (full true playground)
          deps
          []
          (kept_by (happen_all (samples_are_enabled playground) es p))
          b
        ≡ finished r)
      × (r.theme.is_dark ≡ (happen_all (samples_are_enabled playground) es p).theme.is_dark)
      × (r.theme.playground ≡ (happen_all (samples_are_enabled playground) es p).theme.playground)
      × (r.tabs ≡ toggle_sections key b.tabs)
      × ((s : String)
          → (contains s (filter_names a.filter) && contains s (active r.filter)) ≡ (
              contains s (filter_names a.filter)
              && contains s (active (happen_all (samples_are_enabled playground) es p).filter)))
unfolding deliver_page kept_by
open_site-kept_by playground deps hash kept a p b es key old new same opened known chosen there =
    let q = happen_all (samples_are_enabled playground) es p in
    let k = visit-IsKept playground deps hash kept a p es old opened known in
    let (r, e, h, c, d, t) = open_site-IsKept playground deps [] (kept_by q) b new in
    let dark =
      ap (λ (x : Theme). x.is_dark) d
      ∙ open_page-is_dark (samples_are_enabled playground) q.theme.stored
      ∙ k.theme.stored in
    (
      r,
      e,
      dark,
      h.theme.samples
          ∙ ap (sample_theme (samples_are_enabled playground)) dark
          ∙ sym k.theme.samples,
      t
          ∙ handle_anchor-nil (tabs_of (init_tabs (deliver_page (kept_by q) b).tabs)) b.anchors
          ∙ ap tabs_of (init_tabs_kept key (deliver_page (kept_by q) b).tabs chosen there new)
          ∙ toggle_sections-record key b.tabs q.tabs.active_tab,
      same_filter (filter_names a.filter) (samples_are_enabled playground) q r k
          (subst (λ names. IsKept names (samples_are_enabled playground) r) same h) c,
    )
