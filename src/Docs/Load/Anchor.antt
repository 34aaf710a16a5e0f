-- ===== src/Docs/Load/Anchor.antt =====
-- What a page shows that is opened at an anchor.
use lib_rabbit_job_queue.Common.{
  ◌≡◌, refl, ap, ◌∙◌, Bool, true, false, some, List, [], ◌∷◌, ◌++◌, String,
}
use lib_rabbit_job_queue.Docs.Texts.{Text}
use lib_rabbit_job_queue.Docs.Sections.{TabPage, toggle_sections, init_tabs, loaded}
use lib_rabbit_job_queue.Docs.Theme.{Lookup, samples_are_enabled, dark_mode_switch}
use lib_rabbit_job_queue.Docs.Sections.Restore.{CanShow}
use lib_rabbit_job_queue.Docs.Sections.Twice.{init_tabs_then}
use lib_rabbit_job_queue.Docs.Anchors.Found.{handle_anchor-found, fire-scrolls}
use lib_rabbit_job_queue.Docs.Anchors.{Link, Anchors, search_for_tab, handle_anchor, fire_scroll}
use lib_rabbit_job_queue.Docs.Anchors.Highlight.{target, HighlightsOne, handle_anchor-HighlightsOne}
use lib_rabbit_job_queue.Docs.Load.{
  Elements, Site, finished, load, then_do, with_tabs, after_tabs, init_hiding_left_navigation,
  theme_step, filter_step, anchor_step,
}

-- All elements that `load` needs.
abbrev pub full : Bool → Lookup → Elements
full filter playground = record {
  filter_section = filter;
  left_toggler = true;
  main = true;
  navigation_wrapper = true;
  theme_toggle_button = true;
  kotlin_playground = playground;
}

-- What is left of `load` when no part is missing and no tab is amiss.
pub load-full :
    (filter : Bool) (playground : Lookup) (deps : List (String × List String)) (hash : Text)
    (s : Site)
    → CanShow s.tabs.bodies s.tabs.sections
    → (q : Site) × (r : TabPage) × (load (full filter playground) deps hash s ≡ finished q)
      × ((key : String) → toggle_sections key r ≡ toggle_sections key s.tabs)
      × (init_tabs s.tabs ≡ loaded r)
      × (q.filter ≡ (filter_step filter deps s).filter)
      × (q.theme ≡ dark_mode_switch (samples_are_enabled playground) s.theme)
      × (q.tabs ≡ (handle_anchor hash (r, s.anchors)).0)
      × (q.anchors ≡ record (handle_anchor hash (r, s.anchors)).1 { has_offset = true })
unfolding load after_tabs init_hiding_left_navigation theme_step filter_step anchor_step
load-full false playground deps hash s h =
    let (r, e, w) = init_tabs_then s.tabs h in
    (
      _,
      r,
      ap (λ x. then_do (with_tabs s x) (after_tabs (full false playground) hash)) e,
      w,
      e,
      refl,
      refl,
      refl,
      refl,
    )
load-full true playground deps hash s h =
    let (r, e, w) = init_tabs_then s.tabs h in
    let s' = filter_step true deps s in
    (
      _,
      r,
      ap (λ x. then_do (with_tabs s' x) (after_tabs (full true playground) hash)) e,
      w,
      e,
      refl,
      refl,
      refl,
      refl,
    )

-- A page that is opened at an anchor, whose link is in a tab, loads to its end: it shows that tab, whichever
-- tab was kept from before, highlights the element next to the link and no other, and when its timer fires
-- it scrolls to that link. The page must have the elements of its frame and be able to show the tabs that
-- it is delivered with, and nothing on it may be highlighted or waiting.
pub load-anchor :
    (filter : Bool) (playground : Lookup) (deps : List (String × List String)) (hash : Text)
    (s : Site) (l : Link) (key : String)
    → CanShow s.tabs.bodies s.tabs.sections
    → target hash s.anchors.links ≡ some l
    → search_for_tab l.togglables ≡ some key
    → HighlightsOne s.anchors
    → s.anchors.waiting ≡ []
    → s.anchors.has_offset ≡ false
    → (q : Site) × (load (full filter playground) deps hash s ≡ finished q)
      × (q.tabs ≡ toggle_sections key s.tabs)
      × HighlightsOne q.anchors
      × (q.anchors.highlighted ≡ l.content)
      × ((fire_scroll q.anchors.waiting q.anchors).scrolled ≡ s.anchors.scrolled ++ l ∷ [])
load-anchor filter playground deps hash s l key shows found tab one idle early =
    let (q, r, e, later, _, _, _, t, a) = load-full filter playground deps hash s shows in
    let (shown, waits, still) = handle_anchor-found hash r s.anchors l found early in
    let (lit, at) = handle_anchor-HighlightsOne hash r s.anchors one in
    (
      q,
      e,
      t ∙ shown ∙ rw tab (later key),
      rw a lit,
      rw a (at ∙ rw found refl),
      fire-scrolls q.anchors l
            (ap (λ (x : Anchors). x.waiting) a ∙ waits ∙ ap (λ ls. ls ++ l ∷ []) idle)
            (ap (λ (x : Anchors). x.has_offset) a)
          ∙ ap (λ ls. ls ++ l ∷ []) (ap (λ (x : Anchors). x.scrolled) a ∙ still),
    )
