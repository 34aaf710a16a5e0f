-- ===== src/Docs/Filter/Sync.antt =====
-- The filter and the list that the browser keeps: a page that is left and loaded again shows the same
-- source sets.
use lib_rabbit_job_queue.Common.{
  ◌≡◌, refl, sym, ap, ◌∙◌, true, false, not, ◌&&◌, Option, none, some, List, [], ◌∷◌, ◌++◌, String,
  subst, arith, Bool-cases, inl, inr,
}
use lib_rabbit_job_queue.Docs.Names.{contains, without, contains-append, contains-without}
use lib_rabbit_job_queue.Docs.Page.{FilteringContext, Active, own, alias, Page, active, names_of}
use lib_rabbit_job_queue.Docs.Filter.{
  Handled, done, type_error, refresh_filtering, refresh_no_content_notification, set_active, cached,
  remove_cached, remove_sourceset_filter_from_cache, remove_all_from_cache, filter_sourceset,
  unfilter_one, unfilter_all, unfilter_sourceset, filter_button_handler, dependencies_of, push_name,
  is_empty,
}

-- Of the names of the filter, those are active that are not in the list of inactive filters.
abbrev pub InSync : Page → Type 0
InSync p =
    (s : String)
    → (contains s p.context.restricted_dependencies && contains s (active p)) ≡ (
        contains s p.context.restricted_dependencies
        && not (contains s (cached p.inactive_filters)))

-- The same name by name, as the proofs use it.
abbrev pub Synced : Page → Type 0
Synced p =
    (s : String)
    → contains s p.context.restricted_dependencies ≡ true
    → contains s (active p) ≡ not (contains s (cached p.inactive_filters))

pub refresh_frame :
    (p : Page)
    → ((refresh_filtering p).context ≡ p.context)
      × ((refresh_filtering p).inactive_filters ≡ p.inactive_filters)
unfolding refresh_filtering refresh_no_content_notification
refresh_frame p = (ground arith, ground arith)

-- The same of the three lists by themselves.
abbrev pub Agree : List String → List String → List String → Type 0
Agree restricted names inactive =
    (s : String) → contains s restricted ≡ true → contains s names ≡ not (contains s inactive)

pub Synced-at :
    (q : Page) {c : FilteringContext}
    → q.context ≡ c
    → Agree c.restricted_dependencies
        (names_of c.restricted_dependencies c.active_filters)
        (cached q.inactive_filters)
    → Synced q
Synced-at q e =
    subst
      (λ (c : FilteringContext).
        Agree c.restricted_dependencies (names_of c.restricted_dependencies c.active_filters)
          (cached q.inactive_filters))
      (sym e)

-- The page is in sync, over the same names as before.
abbrev pub Remains : Page → Page → Type 0
Remains p q = (q.context.restricted_dependencies ≡ p.context.restricted_dependencies) × Synced q

Agree-without :
    (s : String) (rs xs ys : List String) → Agree rs xs ys → Agree rs (without s xs) (ys ++ s ∷ [])
Agree-without s rs xs ys h t r =
    rw (contains-without t s xs, contains-append t ys (s ∷ []), h t r) (ground arith)

filter_sourceset-Remains : (s : String) (p : Page) → Synced p → Remains p (filter_sourceset s p)
unfolding filter_sourceset
filter_sourceset-Remains s p h =
    let q = set_active (own (without s (active p))) p in
    let f = refresh_frame q in
    (
      ap (λ (c : FilteringContext). c.restricted_dependencies) f.0,
      Synced-at (filter_sourceset s p) f.0 (
          rw f.1 (
            Agree-without s p.context.restricted_dependencies (active p) (cached p.inactive_filters)
              h)),
    )

Agree-push :
    (s : String) (rs xs ys : List String) → Agree rs xs ys → Agree rs (xs ++ s ∷ []) (without s ys)
Agree-push s rs xs ys h t r =
    rw (contains-append t xs (s ∷ []), contains-without t s ys, h t r) (ground arith)

cached-remove :
    (s : String) (c : Option (List String)) → cached (remove_cached s c) ≡ without s (cached c)
cached-remove s none = refl
cached-remove s (some names) = refl

-- The page of a handler, whether it ran to its end or threw.
abbrev pub page_of : Handled → Page
page_of (done p) = p
page_of (type_error p) = p

pub remove_all_lem :
    (ss : List String) (p : Page)
    → ((remove_all_from_cache ss p).context ≡ p.context)
      × ((t : String)
          → contains t (cached (remove_all_from_cache ss p).inactive_filters)
            ≡ (contains t (cached p.inactive_filters) && not (contains t ss)))
unfolding remove_all_from_cache remove_sourceset_filter_from_cache
remove_all_lem [] p = (refl, λ t. ground arith)
remove_all_lem (s ∷ ss) p =
    let q = remove_sourceset_filter_from_cache s p in
    let ih = remove_all_lem ss q in
    (
      ih.0,
      λ t.
          ih.1 t
          ∙ (rw
              (cached-remove s p.inactive_filters, contains-without t s (cached p.inactive_filters))
              (ground arith)),
    )

Agree-all :
    (rs xs ys zs names : List String)
    → is_empty xs ≡ true
    → Agree rs xs ys
    → ((t : String) → contains t zs ≡ (contains t ys && not (contains t names)))
    → Agree rs names zs
unfolding is_empty
Agree-all rs [] ys zs names e h g t r = rw g (ground (arith, h t r))
Agree-all rs (x ∷ xs) ys zs names e h g t r = cc

module _ (s : String) (p : Page) (h : Synced p) where
  unfilter_all-Remains :
      (o : Option (List String))
      → is_empty (active p) ≡ true
      → Remains p (page_of (unfilter_all s p o))
  unfolding unfilter_all
  unfilter_all-Remains none e = (refl, h)
  unfilter_all-Remains (some names) e =
      let q = refresh_filtering (set_active (own (names ++ s ∷ [])) p) in
      let f = refresh_frame (set_active (own (names ++ s ∷ [])) p) in
      let g = remove_all_lem (names ++ s ∷ []) q in
      (
        ap (λ (c : FilteringContext). c.restricted_dependencies) (g.0 ∙ f.0),
        Synced-at (remove_all_from_cache (names ++ s ∷ []) q) (g.0 ∙ f.0) (
            Agree-all p.context.restricted_dependencies (active p) (cached p.inactive_filters) _
              (names ++ s ∷ []) e h
              (λ t.
                g.1 t ∙ ap (λ c. contains t (cached c) && not (contains t (names ++ s ∷ []))) f.1)),
      )

  unfilter_one-Remains :
      (a : Active)
      → p.context.active_filters ≡ a
      → contains s p.context.restricted_dependencies ≡ true
      → contains s (active p) ≡ false
      → Remains p (unfilter_one s p)
  unfolding unfilter_one remove_sourceset_filter_from_cache
  unfilter_one-Remains alias e r n = cc
  unfilter_one-Remains (own names) e r n =
      let f =
        refresh_frame (record p { context = push_name s p.context p.context.active_filters }) in
      (
        ap (λ (c : FilteringContext). c.restricted_dependencies)
            (f.0 ∙ ap (push_name s p.context) e),
        Synced-at (unfilter_one s p) (f.0 ∙ ap (push_name s p.context) e) (
            subst (λ c. Agree p.context.restricted_dependencies (names ++ s ∷ []) (cached c))
              (ap (remove_cached s) (sym f.1))
              (rw (cached-remove s p.inactive_filters) (
                Agree-push s p.context.restricted_dependencies names (cached p.inactive_filters) (
                  subst
                    (λ a.
                      Agree p.context.restricted_dependencies
                        (names_of p.context.restricted_dependencies a) (cached p.inactive_filters))
                    e h)))),
      )

  unfilter_sourceset-Remains :
      contains s p.context.restricted_dependencies ≡ true
      → contains s (active p) ≡ false
      → Remains p (page_of (unfilter_sourceset s p))
  unfolding unfilter_sourceset
  unfilter_sourceset-Remains r n = elim (Bool-cases (is_empty (active p))) [
    | inl e ↦
        rw (e, unfilter_sourceset)
          (unfilter_all-Remains (dependencies_of s p.context.dependencies) e)
    | inr m ↦ rw (m, unfilter_sourceset) (unfilter_one-Remains p.context.active_filters refl r n)
  ]

  pub filter_button_handler-Remains :
      contains s p.context.restricted_dependencies ≡ true
      → Remains p (page_of (filter_button_handler s p))
  unfolding filter_button_handler
  filter_button_handler-Remains r = elim (Bool-cases (contains s (active p))) [
    | inl y ↦ rw (y, filter_button_handler) (filter_sourceset-Remains s p h)
    | inr n ↦ rw (n, filter_button_handler) (unfilter_sourceset-Remains r n)
  ]

pub Synced-InSync : (p : Page) → Synced p → InSync p
Synced-InSync p h s = elim (Bool-cases (contains s p.context.restricted_dependencies)) [
  | inl y ↦ rw y (h s y)
  | inr n ↦ rw n
]

InSync-Synced : (p : Page) → InSync p → Synced p
InSync-Synced p h s r = let e = h s in rw r at e

-- On a page that is in sync with the list that the browser keeps, a click on the filter button of a
-- source set that the filter knows keeps it in sync and leaves the names of the filter alone, also
-- when the handler throws.
filter_button_handler-InSync :
    (s : String) (p : Page)
    → InSync p
    → contains s p.context.restricted_dependencies ≡ true
    → ((page_of (filter_button_handler s p)).context.restricted_dependencies
        ≡ p.context.restricted_dependencies)
      × InSync (page_of (filter_button_handler s p))
filter_button_handler-InSync s p h r =
    let k = filter_button_handler-Remains s p (InSync-Synced p h) r in
    (k.0, Synced-InSync (page_of (filter_button_handler s p)) k.1)
