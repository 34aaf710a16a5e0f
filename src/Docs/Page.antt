-- ===== src/Docs/Page.antt =====
-- docs/dokka/scripts/platform-content-handler.js: the page as its scripts see it. A text that the
-- scripts store in `localStorage` as JSON is kept as the value that it stands for.
use lib_rabbit_job_queue.Common.{ℕ, Bool, Option, List, String}

-- `filteringContext.activeFilters`: an array of its own, or the very array of
-- `filteringContext.restrictedDependencies`.
pub data Active : Type 0 where
  own : List String → Active
  alias : Active

pub record FilteringContext : Type 0 where
  pub dependencies : List (String × List String)
  pub restricted_dependencies : List String
  pub active_filters : Active

-- An element with `data-filterable-set` that is not a bookmark, and its `data-filterable-current`.
pub record Element : Type 0 where
  pub set : List String
  pub current : List String

-- A button of the filter section: its `data-filter`, and whether it has `data-active`.
pub record Button : Type 0 where
  pub filter : String
  pub is_active : Bool

-- A button of a bookmarks row: its `data-toggle`, the `data-filterable-set` and
-- `data-filterable-current` if it has them, and whether it has `data-active`.
pub record Bookmark : Type 0 where
  pub toggle : String
  pub set : Option (List String)
  pub current : Option (List String)
  pub is_active : Bool

pub record Content : Type 0 where
  pub togglable : String
  pub is_active : Bool

-- A `platform-hinted` container: its bookmarks row, and what the bookmarks choose from.
pub record Hinted : Type 0 where
  pub bookmarks : List Bookmark
  pub contents : List Content

-- `notices` counts the messages "All documentation is filtered" on the page, and `notice_shown` says
-- whether the one in `sourcesetNotification` is among them.
pub record Page : Type 0 where
  pub context : FilteringContext
  pub inactive_filters : Option (List String)
  pub elements : List Element
  pub buttons : List Button
  pub hinted : List Hinted
  pub content_hidden : Bool
  pub notices : ℕ
  pub notice_shown : Bool

abbrev pub names_of : List String → Active → List String
names_of restricted (own names) = names
names_of restricted alias = restricted

-- The names in `activeFilters`.
abbrev pub active : Page → List String
active p = names_of p.context.restricted_dependencies p.context.active_filters
