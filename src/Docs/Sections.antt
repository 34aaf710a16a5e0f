-- ===== src/Docs/Sections.antt =====
-- docs/dokka/scripts/platform-content-handler.js: the tabs of a page's sections, the bodies that they
-- show, and the tab that the browser keeps between pages. The elements that the selectors find are
-- children of the tab rows and of the bodies.
pub mod Restore
pub mod Twice
mod Tests
use text.Mathlib.Text.{◌==◌ as str_eq}
use lib_rabbit_job_queue.Common.{
  Bool, true, false, ◌&&◌, Option, none, some, List, [], ◌∷◌, String, map, any, if◌then◌else◌,
}

pub data Tag : Type 0 where
  button div other : Tag

-- An element with its `data-togglable`, if it has one, and whether it has `data-active`.
pub record Child : Type 0 where
  pub tag : Tag
  pub togglable : Option String
  pub is_active : Bool

-- The rows `div.tabs-section[tabs-section]` and the elements `.tabs-section-body`, each as its
-- children, and the value that `localStorage` has for "active-tab".
pub record TabPage : Type 0 where
  pub sections : List (List Child)
  pub bodies : List (List Child)
  pub active_tab : Option String

pub data Loaded : Type 0 where
  loaded : TabPage → Loaded
  type_error : TabPage → Loaded

-- `child.getAttribute("data-togglable") === key`.
abbrev pub is_for : String → Option String → Bool
is_for key none = false
is_for key (some k) = str_eq k key

-- `activateTabs` on the elements of one class.
pub activate_tabs : String → List (List Child) → List (List Child)
activate_tabs key =
    map
      (λ (cs : List Child). map (λ (c : Child). record c { is_active = is_for key c.togglable }) cs)

unfoldable pub toggle_sections : String → TabPage → TabPage
unfolding activate_tabs
toggle_sections key p = record {
  sections = activate_tabs key p.sections;
  bodies = activate_tabs key p.bodies;
  active_tab = some key;
}

-- A click on an element; nothing happens where its `data-togglable` is missing or empty.
unfoldable pub toggle_sections_event_handler : Option String → TabPage → TabPage
toggle_sections_event_handler none p = p
toggle_sections_event_handler (some key) p = if str_eq key "" then p else toggle_sections key p

abbrev pub is_button : Tag → Bool
is_button button = true
is_button _ = false

abbrev pub is_div : Tag → Bool
is_div div = true
is_div _ = false

-- `element.querySelector("button[data-active]")`.
unfoldable pub active_button : List Child → Option Child
active_button [] = none
active_button (c ∷ cs) = if is_button c.tag && c.is_active then some c else active_button cs

-- A missing attribute as the text that a selector is made of.
abbrev pub text_of : Option String → String
text_of none = "null"
text_of (some key) = key

abbrev pub is_body : String → Child → Bool
is_body key c = is_div c.tag && is_for key c.togglable

-- Setting `data-active` on the first `div` for the key; there may be none.
unfoldable pub activate_body : String → List Child → Option (List Child)
activate_body key [] = none
activate_body key (c ∷ cs) =
    let rest = activate_body key cs in
    if is_body key c
    then some (record c { is_active = true } ∷ cs)
    else (elim rest [ none ↦ none | some cs' ↦ some (c ∷ cs') ])

-- The same in the first body of the document.
unfoldable pub activate_first : String → List (List Child) → Option (List (List Child))
activate_first key [] = none
activate_first key (b ∷ bs) = elim (activate_body key b) [ none ↦ none | some b' ↦ some (b' ∷ bs) ]

abbrev pub with_bodies : TabPage → Option (List (List Child)) → Loaded
with_bodies p none = type_error p
with_bodies p (some bodies) = loaded (record p { bodies = bodies })

abbrev pub show_for : Option Child → TabPage → Loaded
show_for none p = loaded p
show_for (some c) p = with_bodies p (activate_first (text_of c.togglable) p.bodies)

unfoldable pub show_corresponding_tab_body : List Child → TabPage → Loaded
unfolding active_button activate_first
show_corresponding_tab_body section p = show_for (active_button section) p

-- `show` for each row in turn.
unfoldable pub show_bodies : List (List Child) → TabPage → Loaded
show_bodies [] p = loaded p
show_bodies (section ∷ sections) p = elim (show_corresponding_tab_body section p) [
  | loaded q ↦ show_bodies sections q
  | type_error q ↦ type_error q
]

-- `div[tabs-section] > button[data-togglable="key"]` finds a tab.
unfoldable pub has_tab : String → List (List Child) → Bool
has_tab key = any (λ cs. any (λ c. is_button c.tag && is_for key c.togglable) cs)

unfoldable pub restore_tab : Option String → TabPage → TabPage
restore_tab none p = p
restore_tab (some key) p = if has_tab key p.sections then toggle_sections key p else p

unfoldable pub init_tabs : TabPage → Loaded
unfolding restore_tab
init_tabs p = elim (show_bodies p.sections p) [
  | loaded q ↦ loaded (restore_tab q.active_tab q)
  | type_error q ↦ type_error q
]
