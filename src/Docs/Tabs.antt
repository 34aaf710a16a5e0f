-- ===== src/Docs/Tabs.antt =====
-- docs/dokka/scripts/platform-content-handler.js: which bookmark of a container is active, and what a
-- click on one shows.
pub mod Laws
mod Tests
use text.Mathlib.Text.{◌==◌ as str_eq}
use lib_rabbit_job_queue.Common.{
  ℕ, zero, suc, Bool, true, false, not, ◌&&◌, ◌||◌, Option, none, some, List, [], ◌∷◌, String, map,
  any, if◌then◌else◌,
}
use lib_rabbit_job_queue.Docs.Page.{Bookmark, Content, Hinted}

-- The text `names.join(' ')` is empty.
abbrev pub joins_to_empty : List String → Bool
joins_to_empty [] = true
joins_to_empty (x ∷ []) = str_eq x ""
joins_to_empty (x ∷ y ∷ xs) = false

-- `element.getAttribute("data-filterable-current") != ''`, which holds of a missing attribute too.
abbrev pub available_by : Option (List String) → Bool
available_by none = true
available_by (some names) = not (joins_to_empty names)

abbrev pub is_available : Bookmark → Bool
is_available b = available_by b.current

clear : List Bookmark → List Bookmark
clear = map (λ (b : Bookmark). record b { is_active = false })

-- The bookmarks row after a click on the bookmark at place `k`: it alone has `data-active`.
pub choose : ℕ → List Bookmark → List Bookmark
unfolding clear
choose k [] = []
choose zero (b ∷ bs) = record b { is_active = true } ∷ clear bs
choose (suc k) (b ∷ bs) = record b { is_active = false } ∷ choose k bs

pub show : String → List Content → List Content
show index = map (λ (c : Content). record c { is_active = str_eq c.togglable index })

abbrev pub toggle_at : ℕ → List Bookmark → Option String
toggle_at k [] = none
toggle_at zero (b ∷ bs) = some b.toggle
toggle_at (suc k) (b ∷ bs) = toggle_at k bs

-- `togglePlatformDependent` for a click on the bookmark at place `k`.
pub toggle_platform_dependent : ℕ → Hinted → Hinted
unfolding choose show
toggle_platform_dependent k h = elim (toggle_at k h.bookmarks) [
  | none ↦ h
  | some index ↦ record { bookmarks = choose k h.bookmarks; contents = show index h.contents }
]

-- The variables `active` and `firstAvailable` after the walk over a row.
abbrev pub row_active : List Bookmark → Bool
row_active = any (λ b. is_available b && b.is_active)

pub first_available : List Bookmark → Option ℕ
first_available [] = none
first_available (b ∷ bs) =
    if is_available b
    then some zero
    else (elim (first_available bs) [ none ↦ none | some k ↦ some (suc k) ])

-- One round of `refreshPlatformTabs`.
refresh_row : Bool → Option ℕ → Hinted → Hinted
refresh_row true first h = h
refresh_row false none h = h
refresh_row false (some k) h = toggle_platform_dependent k h

pub refresh_platform_tabs : List Hinted → List Hinted
unfolding refresh_row
refresh_platform_tabs =
    map (λ h. refresh_row (row_active h.bookmarks) (first_available h.bookmarks) h)
