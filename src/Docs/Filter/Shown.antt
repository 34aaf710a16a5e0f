-- ===== src/Docs/Filter/Shown.antt =====
-- What a page shows after a click on a filter button.
use text.Mathlib.TextPositions.{eq_refl}
use lib_rabbit_job_queue.Common.{
  ◌≡◌, refl, sym, ap, ◌∙◌, true, false, not, ◌&&◌, Option, none, some, List, [], ◌∷◌, ◌++◌, String,
  subst, arith, All, if◌then◌else◌, Bool-cases, inl, inr,
}
use lib_rabbit_job_queue.Docs.Names.{contains, without, within, contains-append, contains-without}
use lib_rabbit_job_queue.Docs.Page.{
  Active, own, alias, FilteringContext, Element, Button, Page, active, names_of,
}
use lib_rabbit_job_queue.Docs.Filter.Sync.{refresh_frame}
use lib_rabbit_job_queue.Docs.Filter.{
  done, is_empty, refresh_filtering, refresh_elements, refresh_filter_buttons,
  refresh_no_content_notification, set_active, push_name, remove_sourceset_filter_from_cache,
  remove_all_from_cache, add_sourceset_filter_to_cache, filter_sourceset, unfilter_all,
  unfilter_one, unfilter_sourceset, filter_button_handler, dependencies_of, initialize_filtering,
}

-- What the page shows is what its active filters say: the buttons, the source sets of each element, the
-- content, and the message in its place.
pub record Shows (p : Page) : Type 0 where
  pub buttons : All (λ (b : Button). b.is_active ≡ contains b.filter (active p)) p.buttons
  pub elements : All (λ (e : Element). e.current ≡ within e.set (active p)) p.elements
  pub hidden : p.content_hidden ≡ is_empty (active p)
  pub shown : p.notice_shown ≡ is_empty (active p)
  pub notices : p.notices ≡ (if is_empty (active p) then 1 else 0)

buttons_lem :
    (names : List String) (bs : List Button)
    → All (λ (b : Button). b.is_active ≡ contains b.filter names) (refresh_filter_buttons names bs)
unfolding refresh_filter_buttons
buttons_lem names [] = tt
buttons_lem names (b ∷ bs) = (refl, buttons_lem names bs)

elements_lem :
    (names : List String) (es : List Element)
    → All (λ (e : Element). e.current ≡ within e.set names) (refresh_elements names es)
unfolding refresh_elements
elements_lem names [] = tt
elements_lem names (e ∷ es) = (refl, elements_lem names es)

-- The message counts that `refreshFiltering` can start from: none on the page, or the one shown while
-- some filter has become active.
abbrev pub CanShow : Page → Type 0
CanShow p =
    (p.notices ≡ (if p.notice_shown then 1 else 0))
    × ((p.notice_shown && is_empty (active p)) ≡ false)

refresh_filtering-Shows : (p : Page) → CanShow p → Shows (refresh_filtering p)
unfolding refresh_filtering refresh_no_content_notification
refresh_filtering-Shows p c = elim (Bool-cases (is_empty (active p))) [
  | inl e ↦ simp e (record {
    buttons = buttons_lem (active p) p.buttons;
    elements = elements_lem (active p) p.elements;
    hidden = sym e;
    shown = sym e;
    notices = rw e (ground arith);
  })
  | inr n ↦ simp n (record {
    buttons = buttons_lem (active p) p.buttons;
    elements = elements_lem (active p) p.elements;
    hidden = sym n;
    shown = sym n;
    notices = rw n (ground arith);
  })
]

-- The browser's list is not shown.
Shows-cache :
    (p : Page) (c : Option (List String)) → Shows p → Shows (record p { inactive_filters = c })
Shows-cache p c h = record {
  buttons = h.buttons;
  elements = h.elements;
  hidden = h.hidden;
  shown = h.shown;
  notices = h.notices;
}

remove_all-Shows :
    (ss : List String) (p : Page)
    → Shows p
    → Shows (remove_all_from_cache ss p) × (active (remove_all_from_cache ss p) ≡ active p)
unfolding remove_all_from_cache remove_sourceset_filter_from_cache
remove_all-Shows [] p h = (h, refl)
remove_all-Shows (s ∷ ss) p h =
    remove_all-Shows ss (remove_sourceset_filter_from_cache s p) (Shows-cache p _ h)

is_empty-append : (s : String) (xs : List String) → is_empty (xs ++ s ∷ []) ≡ false
unfolding is_empty
is_empty-append s [] = refl
is_empty-append s (x ∷ xs) = refl

pub not-empty : (s : String) (xs : List String) → contains s xs ≡ true → is_empty xs ≡ false
unfolding is_empty
not-empty s [] h = sym h
not-empty s (x ∷ xs) h = refl

can_show : (p : Page) → Shows p → p.notices ≡ (if p.notice_shown then 1 else 0)
can_show p h = rw h.shown h.notices

pub contains-last : (s : String) (xs : List String) → contains s (xs ++ s ∷ []) ≡ true
contains-last s xs = rw (contains-append s xs (s ∷ []), eq_refl s) (ground arith)

pub pushed :
    (s : String) (c : FilteringContext) (a : Active)
    → c.active_filters ≡ a
    → names_of (push_name s c a).restricted_dependencies (push_name s c a).active_filters
      ≡ names_of c.restricted_dependencies c.active_filters ++ s ∷ []
pushed s c (own names) e = rw e
pushed s c alias e = rw e

-- The page after a click on the button for `s`: it shows its filters, and `s` has changed sides.
abbrev pub Clicked : String → Page → Page → Type 0
Clicked s p q = Shows q × (contains s (active q) ≡ not (contains s (active p)))

done-injective : {p q : Page} → done p ≡ done q → p ≡ q
done-injective e = cc

module _ (s : String) (p : Page) (h : Shows p) where
  active-refresh :
      (q : Page) (c : FilteringContext)
      → q.context ≡ c
      → active (refresh_filtering q) ≡ names_of c.restricted_dependencies c.active_filters
  active-refresh q c e =
      ap (λ (d : FilteringContext). names_of d.restricted_dependencies d.active_filters)
        ((refresh_frame q).0 ∙ e)

  filter_sourceset-Clicked : contains s (active p) ≡ true → Clicked s p (filter_sourceset s p)
  unfolding filter_sourceset add_sourceset_filter_to_cache
  filter_sourceset-Clicked y =
      let q = set_active (own (without s (active p))) p in
      let e = not-empty s (active p) y in
      (
        Shows-cache (refresh_filtering q) _
            (refresh_filtering-Shows q (can_show p h, rw (h.shown, e))),
        ap (contains s) (active-refresh q q.context refl)
            ∙ (rw (contains-without s s (active p), y, eq_refl s)),
      )

  -- A refresh for filters that are those of `q`, the last of them `s`.
  refreshed :
      (q : Page) (names : List String)
      → active q ≡ names ++ s ∷ []
      → p.notices ≡ q.notices
      → p.notice_shown ≡ q.notice_shown
      → contains s (active p) ≡ false
      → Clicked s p (refresh_filtering q)
  refreshed q names e f g n = (
    refresh_filtering-Shows q (
      sym f ∙ can_show p h ∙ ap (λ b. if b then 1 else 0) g,
      rw (e, is_empty-append s names) (ground arith),
    ),
    ap (contains s) (active-refresh q q.context refl ∙ e) ∙ contains-last s names ∙ ap not (sym n),
  )

  unfilter_all-Clicked :
      (o : Option (List String)) (q : Page)
      → contains s (active p) ≡ false
      → unfilter_all s p o ≡ done q
      → Clicked s p q
  unfolding unfilter_all
  unfilter_all-Clicked none q n e = cc
  unfilter_all-Clicked (some names) q n e =
      let r = set_active (own (names ++ s ∷ [])) p in
      let (shows, changed) = refreshed r names refl refl refl n in
      let (after, same) = remove_all-Shows (names ++ s ∷ []) (refresh_filtering r) shows in
      subst (Clicked s p) (done-injective e) (after, ap (contains s) same ∙ changed)

  unfilter_one-Clicked : contains s (active p) ≡ false → Clicked s p (unfilter_one s p)
  unfolding unfilter_one remove_sourceset_filter_from_cache
  unfilter_one-Clicked n =
      let q = record p { context = push_name s p.context p.context.active_filters } in
      let (shows, changed) =
        refreshed q (active p) (pushed s p.context p.context.active_filters refl) refl refl n in
      (Shows-cache (refresh_filtering q) _ shows, changed)

  -- On a page that shows its filters, a click on a filter button whose handler does not throw
  -- makes its source set inactive if it was active and active if it was not. Afterwards each
  -- button and each element shows the active filters, and the message that all is filtered
  -- stands on the page exactly once if there are none, and not at all otherwise.
  pub filter_button_handler-Clicked :
      (q : Page) → filter_button_handler s p ≡ done q → Clicked s p q
  unfolding filter_button_handler unfilter_sourceset
  filter_button_handler-Clicked q e = elim (Bool-cases (contains s (active p))) [
    | inl y ↦ subst (Clicked s p) (done-injective (rw y at e)) (filter_sourceset-Clicked y)
    | inr n ↦ elim (Bool-cases (is_empty (active p))) [
      | inl m ↦ unfilter_all-Clicked (dependencies_of s p.context.dependencies) q n (ground arith)
      | inr m ↦ subst (Clicked s p) (done-injective (ground arith)) (unfilter_one-Clicked n)
    ]
  ]

-- A page that starts without the message shows its filters once it is initialised.
pub initialize-Shows :
    (deps : List (String × List String)) (p : Page)
    → p.notices ≡ 0
    → p.notice_shown ≡ false
    → Shows (initialize_filtering deps p)
unfolding initialize_filtering
initialize-Shows deps p n f = refresh_filtering-Shows _ (rw (n, f), rw f)
