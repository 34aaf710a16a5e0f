-- ===== src/Docs/Anchors.antt =====
-- docs/dokka/scripts/platform-content-handler.js: the anchor that a page is opened at, the element that
-- it highlights, the tab that the element is in, and the scrolling to it.
pub mod Highlight
pub mod Found
pub mod Frame
mod Tests
use lib_rabbit_job_queue.Common.{
  ℕ, ◌+◌, Bool, true, false, ◌&&◌, Option, none, some, List, [], ◌∷◌, ◌++◌, String, ◌==◌,
  if◌then◌else◌,
}
use lib_rabbit_job_queue.Docs.Texts.{Text}
use lib_rabbit_job_queue.Docs.Selector.{css_value}
use lib_rabbit_job_queue.Docs.Sections.{TabPage, toggle_sections}

abbrev pub text_eq : Text → Text → Bool
text_eq [] [] = true
text_eq (c ∷ s) (d ∷ t) = (c == d) && text_eq s t
text_eq _ _ = false

-- An `a[data-name]`: the `data-togglable` of it, of its parent and so on up to the document, where they
-- have one, and its next sibling.
pub record Link : Type 0 where
  pub name : Text
  pub togglables : List (Option String)
  pub content : Option ℕ

-- `highlight x` is the class "anchor-highlight" of the element x. `has_offset` is whether
-- `topNavbarOffset` is an element. `waiting` are the links of the timers of `waitAndScroll`, oldest
-- first; `scrolled` are the links that were scrolled to, and `errors` counts the calls of the function
-- `waitForScroll`, which does not exist.
pub record Anchors : Type 0 where
  pub links : List Link
  pub highlight : ℕ → Bool
  pub highlighted : Option ℕ
  pub has_offset : Bool
  pub waiting : List Link
  pub scrolled : List Link
  pub errors : ℕ

abbrev pub set_highlight : ℕ → Bool → Anchors → Anchors
set_highlight x b a = record a { highlight = λ y. if y == x then b else a.highlight y }

-- The first lines of `handleAnchor`.
abbrev pub take_away : Option ℕ → Anchors → Anchors
take_away none a = a
take_away (some x) a = let a' = set_highlight x false a in record a' { highlighted = none }

-- `searchForTab`: the key of the first element on the way up that has one.
unfoldable pub search_for_tab : List (Option String) → Option String
search_for_tab [] = none
search_for_tab (none ∷ up) = search_for_tab up
search_for_tab (some key ∷ up) = some key

-- The first element of the page that is selected by `a[data-name="…"]`, where the string has the value `name`.
unfoldable pub find_link : Text → List Link → Option Link
find_link name [] = none
find_link name (l ∷ ls) =
    let rest = find_link name ls in if text_eq l.name name then some l else rest

unfoldable pub scroll_to_element_in_content : Link → Anchors → Anchors
scroll_to_element_in_content l a =
    if a.has_offset
    then record a { scrolled = a.scrolled ++ l ∷ [] }
    else record a { waiting = a.waiting ++ l ∷ [] }

abbrev pub put_highlight : Option ℕ → Anchors → Anchors
put_highlight none a = a
put_highlight (some x) a = let a' = set_highlight x true a in record a' { highlighted = some x }

abbrev pub toggle_tab : Option String → TabPage → TabPage
toggle_tab none p = p
toggle_tab (some key) p = toggle_sections key p

-- `handleAnchor` on the link that it finds.
abbrev pub show_link : Option Link → TabPage × Anchors → TabPage × Anchors
show_link none s = s
show_link (some l) (p, a) = (
  toggle_tab (search_for_tab l.togglables) p,
  scroll_to_element_in_content l (put_highlight l.content a),
)

-- `handleAnchor`, with `window.location.hash`, which begins with its sign if it is not empty.
unfoldable pub handle_anchor : Text → TabPage × Anchors → TabPage × Anchors
unfolding search_for_tab scroll_to_element_in_content
handle_anchor [] (p, a) = (p, take_away a.highlighted a)
handle_anchor (sign ∷ anchor) (p, a) =
    let a' = take_away a.highlighted a in show_link (find_link (css_value anchor) a'.links) (p, a')

-- A timer of `waitAndScroll` fires.
abbrev pub fire_scroll : List Link → Anchors → Anchors
fire_scroll [] a = a
fire_scroll (l ∷ ls) a =
    if a.has_offset
    then record a { waiting = ls; scrolled = a.scrolled ++ l ∷ [] }
    else record a { waiting = ls; errors = a.errors + 1 }
