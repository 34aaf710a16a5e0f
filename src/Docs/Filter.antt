-- ===== src/Docs/Filter.antt =====
-- docs/dokka/scripts/platform-content-handler.js: the source-set filter of a page, its buttons and the
-- list of inactive filters that the browser keeps between pages.
pub mod Sync
pub mod Reload
pub mod Shown
pub mod Sets
pub mod View
mod Tests
use text.Mathlib.Text.{◌==◌ as str_eq}
use lib_rabbit_job_queue.Common.{
  ℕ, ◌+◌, ◌-◌, Bool, true, false, Option, none, some, List, [], ◌∷◌, ◌++◌, String, map,
  if◌then◌else◌,
}
use lib_rabbit_job_queue.Docs.Names.{contains, without, minus, within}
use lib_rabbit_job_queue.Docs.Page.{
  Active, own, alias, FilteringContext, Element, Button, Bookmark, Hinted, Page, active,
}
use lib_rabbit_job_queue.Docs.Tabs.{refresh_platform_tabs}

-- A handler that runs to its end, or throws a TypeError and leaves the page as it was.
pub data Handled : Type 0 where
  done : Page → Handled
  type_error : Page → Handled

pub refresh_filter_buttons : List String → List Button → List Button
refresh_filter_buttons names =
    map (λ (b : Button). record b { is_active = contains b.filter names })

pub refresh_elements : List String → List Element → List Element
refresh_elements names = map (λ (e : Element). record e { current = within e.set names })

-- The same of the bookmarks, for those that have a `data-filterable-set`.
abbrev pub refreshed_current :
    List String → Option (List String) → Option (List String) → Option (List String)
refreshed_current names none current = current
refreshed_current names (some set) current = some (within set names)

pub refresh_bookmarks : List String → List Hinted → List Hinted
refresh_bookmarks names = map (λ (h : Hinted). record h {
  bookmarks =
      map (λ (b : Bookmark). record b { current = refreshed_current names b.set b.current })
        h.bookmarks;
})

pub is_empty : List String → Bool
is_empty [] = true
is_empty (x ∷ xs) = false

pub refresh_no_content_notification : Page → Page
unfolding is_empty
refresh_no_content_notification p =
    if is_empty (active p)
    then record p { content_hidden = true; notices = p.notices + 1; notice_shown = true }
    else record p {
      content_hidden = false;
      notices = if p.notice_shown then p.notices - 1 else p.notices;
      notice_shown = false;
    }

pub refresh_filtering : Page → Page
refresh_filtering p = refresh_no_content_notification (record p {
  elements = refresh_elements (active p) p.elements;
  buttons = refresh_filter_buttons (active p) p.buttons;
  hinted = refresh_platform_tabs (refresh_bookmarks (active p) p.hinted);
})

abbrev pub set_active : Active → Page → Page
set_active a p = record p { context = record p.context { active_filters = a } }

abbrev pub cached : Option (List String) → List String
cached none = []
cached (some names) = names

pub add_sourceset_filter_to_cache : String → Page → Page
add_sourceset_filter_to_cache s p = record p {
  inactive_filters = some (cached p.inactive_filters ++ s ∷ []);
}

-- Without a cached list nothing is written.
abbrev pub remove_cached : String → Option (List String) → Option (List String)
remove_cached s none = none
remove_cached s (some names) = some (without s names)

pub remove_sourceset_filter_from_cache : String → Page → Page
remove_sourceset_filter_from_cache s p = record p {
  inactive_filters = remove_cached s p.inactive_filters;
}

pub remove_all_from_cache : List String → Page → Page
remove_all_from_cache [] p = p
remove_all_from_cache (s ∷ ss) p = remove_all_from_cache ss (remove_sourceset_filter_from_cache s p)

pub filter_sourceset : String → Page → Page
unfolding add_sourceset_filter_to_cache
filter_sourceset s p =
    add_sourceset_filter_to_cache s (refresh_filtering (set_active (own (without s (active p))) p))

-- `activeFilters.push(s)`, which writes to whichever array that is.
abbrev pub push_name : String → FilteringContext → Active → FilteringContext
push_name s c (own names) = record c { active_filters = own (names ++ s ∷ []) }
push_name s c alias = record c { restricted_dependencies = c.restricted_dependencies ++ s ∷ [] }

abbrev pub dependencies_of : String → List (String × List String) → Option (List String)
dependencies_of s [] = none
dependencies_of s ((k, names) ∷ rest) = if str_eq k s then some names else dependencies_of s rest

-- The branch for an empty `activeFilters`; the value of a missing key has no `concat`.
unfilter_all : String → Page → Option (List String) → Handled
unfilter_all s p none = type_error p
unfilter_all s p (some names) = done (
    remove_all_from_cache (names ++ s ∷ [])
      (refresh_filtering (set_active (own (names ++ s ∷ [])) p)))

unfilter_one : String → Page → Page
unfilter_one s p =
    remove_sourceset_filter_from_cache s
      (refresh_filtering (record p { context = push_name s p.context p.context.active_filters }))

pub unfilter_sourceset : String → Page → Handled
unfilter_sourceset s p =
    if is_empty (active p)
    then unfilter_all s p (dependencies_of s p.context.dependencies)
    else done (unfilter_one s p)

-- `filterButtonHandler` for a click on the button of the filter section whose `data-filter` is `s`.
pub filter_button_handler : String → Page → Handled
filter_button_handler s p =
    if contains s (active p) then done (filter_sourceset s p) else unfilter_sourceset s p

restrict : List String → List (String × List String) → List (String × List String)
restrict names = map (λ (k, deps). (k, within deps names))

initial : List String → Option (List String) → Active
initial restricted none = alias
initial restricted (some names) = own (minus restricted names)

-- The parsed text in docs/dokka/scripts/sourceset_dependencies.js.
abbrev pub sourceset_dependencies : List (String × List String)
sourceset_dependencies = (":dokkaHtml/main", []) ∷ []

-- `initializeFiltering`, with the parsed `sourceset_dependencies` as its argument.
pub initialize_filtering : List (String × List String) → Page → Page
unfolding restrict initial
initialize_filtering dependencies p =
    let restricted =
      p.context.restricted_dependencies ++ map (λ (b : Button). b.filter) p.buttons in
    refresh_filtering (record p {
      context = record {
        dependencies = restrict restricted dependencies;
        restricted_dependencies = restricted;
        active_filters = initial restricted p.inactive_filters;
      };
    })
