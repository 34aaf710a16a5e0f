-- ===== src/Docs/Filter/View.antt =====
-- The filter as the set of its active names: what the clicks on its buttons do to it.
use mathlib.Core.Quot
use text.Mathlib.TextPositions.{eq_refl}
use text.Mathlib.TextEquality.{eq_iff}
use text.Mathlib.Text.{◌==◌ as str_eq}
use lib_rabbit_job_queue.Common.{
  ◌≡◌, refl, ap, ◌∙◌, true, false, Option, none, some, List, [], ◌∷◌, ◌++◌, String, arith,
  Bool-cases, inl, inr,
}
use lib_rabbit_job_queue.Docs.Names.{contains, without, contains-append, contains-without}
use lib_rabbit_job_queue.Docs.Page.{FilteringContext, Active, own, alias, Page, active, names_of}
use lib_rabbit_job_queue.Docs.Filter.Sets.{
  NameSet, set_of, click_set, click_sets, with_dependencies, SameNames,
}
use lib_rabbit_job_queue.Docs.Filter.Sync.{page_of, refresh_frame, remove_all_lem}
use lib_rabbit_job_queue.Docs.Filter.Shown.{pushed, not-empty, contains-last}
use lib_rabbit_job_queue.Docs.Filter.Reload.{run_clicks}
use lib_rabbit_job_queue.Docs.Filter.{
  is_empty, refresh_filtering, set_active, push_name, remove_sourceset_filter_from_cache,
  add_sourceset_filter_to_cache, filter_sourceset, unfilter_all, unfilter_one, unfilter_sourceset,
  filter_button_handler, dependencies_of,
}

abbrev pub view : Page → NameSet
view p = set_of (active p)

abbrev names_in : FilteringContext → List String
names_in c = names_of c.restricted_dependencies c.active_filters

-- A page with the dependencies of before, and these names active.
record Turned (p q : Page) (names : List String) : Type 0 where
  dependencies : q.context.dependencies ≡ p.context.dependencies
  turned : active q ≡ names

module _ (s : String) (p : Page) where
  filter_sourceset-Turned : Turned p (filter_sourceset s p) (without s (active p))
  unfolding filter_sourceset add_sourceset_filter_to_cache
  filter_sourceset-Turned =
      let f = (refresh_frame (set_active (own (without s (active p))) p)).0 in
      record {
        dependencies = ap (λ (c : FilteringContext). c.dependencies) f;
        turned = ap names_in f;
      }

  unfilter_all-Turned :
      (names : List String) → Turned p (page_of (unfilter_all s p (some names))) (names ++ s ∷ [])
  unfolding unfilter_all
  unfilter_all-Turned names =
      let q = set_active (own (names ++ s ∷ [])) p in
      let f = (remove_all_lem (names ++ s ∷ []) (refresh_filtering q)).0 ∙ (refresh_frame q).0 in
      record {
        dependencies = ap (λ (c : FilteringContext). c.dependencies) f;
        turned = ap names_in f;
      }

  push_name-dependencies :
      (a : Active) → (push_name s p.context a).dependencies ≡ p.context.dependencies
  push_name-dependencies (own names) = refl
  push_name-dependencies alias = refl

  unfilter_one-Turned : Turned p (unfilter_one s p) (active p ++ s ∷ [])
  unfolding unfilter_one remove_sourceset_filter_from_cache
  unfilter_one-Turned =
      let a = p.context.active_filters in
      let f = (refresh_frame (record p { context = push_name s p.context a })).0 in
      record {
        dependencies = ap (λ (c : FilteringContext). c.dependencies) f ∙ push_name-dependencies a;
        turned = ap names_in f ∙ pushed s p.context a refl;
      }

-- A page with the dependencies of before, on which this set of names is active.
abbrev IsNow : Page → Page → NameSet → Type 0
IsNow p q names = (q.context.dependencies ≡ p.context.dependencies) × (view q ≡ names)

Turned-IsNow : {p q : Page} {names : List String} → Turned p q names → IsNow p q (set_of names)
Turned-IsNow t = (t.dependencies, ap set_of t.turned)

unfilter_all-IsNow :
    (s : String) (p : Page) (deps : Option (List String))
    → IsNow p (page_of (unfilter_all s p deps)) (with_dependencies s deps (view p))
unfolding unfilter_all
unfilter_all-IsNow s p none = (refl, refl)
unfilter_all-IsNow s p (some names) = Turned-IsNow (unfilter_all-Turned s p names)

filter_button_handler-IsNow :
    (s : String) (p : Page)
    → IsNow p
        (page_of (filter_button_handler s p))
        (click_set (dependencies_of s p.context.dependencies) s (view p))
unfolding filter_button_handler unfilter_sourceset
filter_button_handler-IsNow s p = elim (Bool-cases (contains s (active p))) [
  | inl y ↦ rw (filter_button_handler, y) (Turned-IsNow (filter_sourceset-Turned s p))
  | inr n ↦ elim (Bool-cases (is_empty (active p))) [
    | inl e ↦
        rw (filter_button_handler, n, unfilter_sourceset, e)
          (unfilter_all-IsNow s p (dependencies_of s p.context.dependencies))
    | inr m ↦
        rw (filter_button_handler, n, unfilter_sourceset, m)
          (Turned-IsNow (unfilter_one-Turned s p))
  ]
]

-- Whatever buttons of the filter are clicked, the names that are active afterwards, as a set, depend only on
-- the set of those that were active before and on the page's dependencies, by the rule for one click on a
-- set: order and repetitions in the arrays, and which array it is, do not matter.
pub run_clicks-view :
    (clicks : List String) (p : Page)
    → view (run_clicks clicks p) ≡ click_sets p.context.dependencies clicks (view p)
unfolding run_clicks
run_clicks-view [] p = refl
run_clicks-view (s ∷ ss) p =
    let (same, now) = filter_button_handler-IsNow s p in
    run_clicks-view ss (page_of (filter_button_handler s p)) ∙ rw (same, now) refl

module _ (deps : Option (List String)) (s : String) (xs : List String) where
  click_set-takes : contains s xs ≡ true → click_set deps s (set_of xs) ≡ set_of (without s xs)
  click_set-takes y = rw y refl

  click_set-puts :
      contains s xs ≡ false
      → is_empty xs ≡ false
      → click_set deps s (set_of xs) ≡ set_of (xs ++ s ∷ [])
  click_set-puts n m = rw (n, m) refl

taken_and_put :
    (s : String) (xs : List String) → contains s xs ≡ true → SameNames (without s xs ++ s ∷ []) xs
taken_and_put s xs y u =
    rw (contains-append u (without s xs) (s ∷ []), contains-without u s xs)
      (ground (arith, y, eq_iff s u))

put_and_taken :
    (s : String) (xs : List String)
    → contains s xs ≡ false
    → SameNames (without s (xs ++ s ∷ [])) xs
put_and_taken s xs n u =
    rw (contains-without u s (xs ++ s ∷ []), contains-append u xs (s ∷ []))
      (ground (arith, n, eq_iff s u))

without-contains : (s : String) (xs : List String) → contains s (without s xs) ≡ false
without-contains s xs = rw (contains-without s s xs, eq_refl s) (ground arith)

click_twice :
    (deps : Option (List String)) (s t : String) (xs : List String)
    → contains t xs ≡ true
    → str_eq s t ≡ false
    → click_set deps s (click_set deps s (set_of xs)) ≡ set_of xs
click_twice deps s t xs h apart = elim (Bool-cases (contains s xs)) [
  | inl y ↦
      let there : contains t (without s xs) ≡ true = rw (contains-without t s xs, h, apart) refl in
      ap (click_set deps s) (click_set-takes deps s xs y)
      ∙ click_set-puts deps s (without s xs) (without-contains s xs)
          (not-empty t (without s xs) there)
      ∙ Quot.sound (taken_and_put s xs y)
  | inr n ↦
      ap (click_set deps s) (click_set-puts deps s xs n (not-empty t xs h))
      ∙ click_set-takes deps s (xs ++ s ∷ []) (contains-last s xs)
      ∙ Quot.sound (put_and_taken s xs n)
]

-- Two clicks on the same button, where another source set is active, leave the same source sets active as
-- before.
pub run_clicks_twice :
    (s t : String) (p : Page)
    → contains t (active p) ≡ true
    → str_eq s t ≡ false
    → view (run_clicks (s ∷ s ∷ []) p) ≡ view p
run_clicks_twice s t p h apart =
    let deps = dependencies_of s p.context.dependencies in
    run_clicks-view (s ∷ s ∷ []) p ∙ click_twice deps s t (active p) h apart
