-- ===== src/Docs/Navigation/Start.antt =====
-- docs/dokka/scripts/navigation-loader.js: when the side menu of a page is displayed, and the links of the
-- page's footer.
use lib_rabbit_job_queue.Common.{
  ℕ, zero, suc, ◌≡◌, refl, Bool, true, false, Option, none, some, List, [], ◌∷◌, if◌then◌else◌,
}
use lib_rabbit_job_queue.Docs.Texts.{Text}
use lib_rabbit_job_queue.Docs.Anchors.{text_eq}
use lib_rabbit_job_queue.Docs.Navigation.{SideMenu, display_navigation_from_page}

-- `document.readyState`.
pub data ReadyState : Type 0 where
  loading interactive complete : ReadyState

-- `waits` is whether the listener of DOMContentLoaded is set, `answer` the navigation when it has been
-- fetched, and `asked` how many calls of `displayNavigationFromPage` wait for it. `side_menu` is the menu in
-- the element "sideMenu"; nothing is in it before it is displayed. Each link of the footer has as many
-- handlers as `handlers` says.
pub record Loader : Type 0 where
  pub waits : Bool
  pub answer : Option SideMenu
  pub asked : ℕ
  pub side_menu : Option SideMenu
  pub handlers : ℕ

-- What happens to the script of a page when it has run.
pub data LoaderEvent : Type 0 where
  dom_content_loaded : LoaderEvent
  fetched : SideMenu → LoaderEvent

module _ (path_to_root page : Text) where
  abbrev pub show_menu : SideMenu → Loader → Loader
  show_menu menu l = record l { side_menu = display_navigation_from_page path_to_root page menu }

  -- The callbacks of `navigationPageText.then(…)`: at once where the navigation has been fetched.
  abbrev pub then_show : Option SideMenu → Loader → Loader
  then_show none l = record l { asked = suc l.asked }
  then_show (some menu) l = show_menu menu l

  -- `displayNavigationFromPage`.
  pub call_display : Loader → Loader
  call_display l = let l' = then_show l.answer l in record l' { handlers = suc l'.handlers }

  -- The menu that comes is displayed for each of the calls.
  abbrev pub show_all : ℕ → SideMenu → Loader → Loader
  show_all zero menu l = l
  show_all (suc n) menu l = show_all n menu (show_menu menu l)

  pub handle_event : LoaderEvent → Loader → Loader
  unfolding call_display
  handle_event dom_content_loaded l = if l.waits then call_display l else l
  handle_event (fetched menu) l =
      let l' = show_all l.asked menu l in record l' { answer = some menu; asked = 0 }

  pub handle_events : List LoaderEvent → Loader → Loader
  handle_events [] l = l
  handle_events (e ∷ es) l = handle_events es (handle_event e l)

  abbrev pub new_loader : Loader
  new_loader = record { waits = false; answer = none; asked = 0; side_menu = none; handlers = 0 }

  -- The script.
  pub run_script : ReadyState → Loader
  unfolding call_display
  run_script loading = record new_loader { waits = true }
  run_script interactive = call_display new_loader
  run_script complete = call_display new_loader

  -- Whether the navigation is fetched before or after the page's content is loaded, and whether the script
  -- runs before that or after it, the menu is displayed for the page, and each link of its footer gets one
  -- handler.
  pub run_script-displays :
      (state : ReadyState) (menu : SideMenu)
      → (handle_events (fetched menu ∷ dom_content_loaded ∷ []) (run_script state)
          ≡ handle_events (dom_content_loaded ∷ fetched menu ∷ []) (run_script state))
        × ((handle_events (fetched menu ∷ dom_content_loaded ∷ []) (run_script state)).side_menu
            ≡ display_navigation_from_page path_to_root page menu)
        × ((handle_events (fetched menu ∷ dom_content_loaded ∷ []) (run_script state)).handlers ≡ 1)
  unfolding run_script call_display handle_event handle_events
  run_script-displays loading menu = (refl, refl, refl)
  run_script-displays interactive menu = (refl, refl, refl)
  run_script-displays complete menu = (refl, refl, refl)

-- What a click on a link of the footer does, whose `href` is "#" and a name: it scrolls to the element at
-- a place, follows the link if it has no handler, or throws a TypeError where no element has the name as
-- its id, or a SyntaxError where the name is empty.
pub data Followed : Type 0 where
  scrolled_to : ℕ → Followed
  followed type_error syntax_error : Followed

-- `document.querySelector("#name")`, for a name of letters, by the ids of the page's elements.
unfoldable pub place_of : Text → List Text → Option ℕ
place_of name [] = none
place_of name (i ∷ ids) =
    let rest = place_of name ids in
    if text_eq i name then some 0 else (elim rest [ none ↦ none | some k ↦ some (suc k) ])

abbrev pub scroll_into_view : Option ℕ → Followed
scroll_into_view none = type_error
scroll_into_view (some k) = scrolled_to k

abbrev pub find_and_scroll : Text → List Text → Followed
find_and_scroll [] ids = syntax_error
find_and_scroll (c ∷ name) ids = scroll_into_view (place_of (c ∷ name) ids)

pub click_footer_link : Text → List Text → Loader → Followed
click_footer_link name ids l = elim l.handlers [
  | zero ↦ followed
  | suc n ↦ find_and_scroll name ids
]
