-- ===== src/Docs/Filter/Reload.antt =====
-- Leaving a page and loading another one: the filter that the new page starts with is the one that the
-- clicks on the old page left.
use lib_rabbit_job_queue.Common.{
  ◌≡◌, refl, sym, ap, ◌∙◌, true, not, Option, none, some, List, [], ◌∷◌, ◌++◌, String, subst, All,
  map,
}
use lib_rabbit_job_queue.Docs.Names.{contains, contains-minus}
use lib_rabbit_job_queue.Docs.Page.{Button, FilteringContext, Page, active, names_of}
use lib_rabbit_job_queue.Docs.Filter.{
  cached, filter_button_handler, initial, initialize_filtering, restrict,
}
use lib_rabbit_job_queue.Docs.Filter.Sync.{
  InSync, Synced, Synced-InSync, Synced-at, Agree, Remains, page_of, refresh_frame,
  filter_button_handler-Remains,
}

-- The names that a page's filter is over once it is initialised.
abbrev pub filter_names : Page → List String
filter_names p = p.context.restricted_dependencies ++ map (λ (b : Button). b.filter) p.buttons

initial-Agree :
    (rs : List String) (c : Option (List String)) → Agree rs (names_of rs (initial rs c)) (cached c)
unfolding initial
initial-Agree rs none t r = r
initial-Agree rs (some names) t r = rw (contains-minus t rs names, r)

pub initialize_frame :
    (deps : List (String × List String)) (p : Page)
    → ((initialize_filtering deps p).context.restricted_dependencies ≡ filter_names p)
      × ((initialize_filtering deps p).inactive_filters ≡ p.inactive_filters)
      × Synced (initialize_filtering deps p)
unfolding initialize_filtering
initialize_frame deps p =
    let c : FilteringContext = record {
      dependencies = restrict (filter_names p) deps;
      restricted_dependencies = filter_names p;
      active_filters = initial (filter_names p) p.inactive_filters;
    } in
    let f = refresh_frame (record p { context = c }) in
    (
      ap (λ (d : FilteringContext). d.restricted_dependencies) f.0,
      f.1,
      Synced-at (initialize_filtering deps p) {c = c} f.0
          (rw f.1 (initial-Agree (filter_names p) p.inactive_filters)),
    )

initialize-InSync :
    (deps : List (String × List String)) (p : Page) → InSync (initialize_filtering deps p)
initialize-InSync deps p = Synced-InSync (initialize_filtering deps p) (initialize_frame deps p).2

unfoldable pub run_clicks : List String → Page → Page
run_clicks [] p = p
run_clicks (s ∷ ss) p = run_clicks ss (page_of (filter_button_handler s p))

-- Every click is on a button of the filter.
abbrev pub AreClicks : List String → Page → Type 0
AreClicks clicks p = All (λ s. contains s p.context.restricted_dependencies ≡ true) clicks

run_clicks-Remains :
    (clicks : List String) (p : Page)
    → Synced p
    → AreClicks clicks p
    → Remains p (run_clicks clicks p)
unfolding run_clicks
run_clicks-Remains [] p h a = (refl, h)
run_clicks-Remains (s ∷ ss) p h a =
    let k = filter_button_handler-Remains s p h a.0 in
    let q = page_of (filter_button_handler s p) in
    let b : AreClicks ss q = subst (λ names. All (λ s. contains s names ≡ true) ss) (sym k.0) a.1 in
    let r = run_clicks-Remains ss q k.1 b in (r.0 ∙ k.0, r.1)

-- After any clicks on filter buttons of an initialised page, a page with the same names in its
-- filter that is loaded with the list that the browser has kept starts with the same source sets
-- of the filter active.
reload_clicks :
    (deps : List (String × List String)) (p fresh : Page) (clicks : List String)
    → AreClicks clicks (initialize_filtering deps p)
    → filter_names fresh ≡ filter_names p
    → fresh.inactive_filters ≡ (run_clicks clicks (initialize_filtering deps p)).inactive_filters
    → (s : String) → contains s (filter_names p) ≡ true
    → contains s (active (initialize_filtering deps fresh))
      ≡ contains s (active (run_clicks clicks (initialize_filtering deps p)))
reload_clicks deps p fresh clicks a same kept s r =
    let old = initialize_frame deps p in
    let new = initialize_frame deps fresh in
    let k = run_clicks-Remains clicks (initialize_filtering deps p) old.2 a in
    let in_old = (ap (contains s) (k.0 ∙ old.0)) ∙ r in
    let in_new = ap (contains s) (new.0 ∙ same) ∙ r in
    new.2 s in_new ∙ ap (λ c. not (contains s (cached c))) (new.1 ∙ kept) ∙ sym (k.1 s in_old)
