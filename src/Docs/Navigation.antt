-- ===== src/Docs/Navigation.antt =====
-- docs/dokka/scripts/navigation-loader.js: the side menu that is loaded into a page, and the part of it
-- that is shown for the page.
pub mod Reveal
pub mod Search
pub mod Start
mod Tests
use lib_rabbit_job_queue.Common.{
  ℕ, zero, suc, ◌+◌, Bool, true, false, not, ◌&&◌, Option, none, some, List, [], ◌∷◌, ◌++◌, map,
  ◌==◌, if◌then◌else◌, length,
}
use lib_rabbit_job_queue.Docs.Texts.{Text, includes, has_unit, before_last}

-- A `.sideMenuPart`: its `pageId`, the part that its parent node is, if that is one, and whether it
-- has the class "hidden" and `data-active`.
pub record Part : Type 0 where
  pub page_id : Text
  pub parent : Option ℕ
  pub is_hidden : Bool
  pub is_active : Bool

-- The parts in document order, by their places 0 … size - 1.
pub record Menu : Type 0 where
  pub size : ℕ
  pub part : ℕ → Part

abbrev pub put_part : ℕ → Part → Menu → Menu
put_part k p m = record m { part = λ j. if j == k then p else m.part j }

-- `part.classList.remove("hidden")`.
abbrev pub unhide : ℕ → Menu → Menu
unhide k m = put_part k (record (m.part k) { is_hidden = false }) m

-- `revealParents`; nothing is left where the fuel runs out.
pub reveal_parents : ℕ → Option ℕ → Menu → Option Menu
reveal_parents fuel none m = some m
reveal_parents zero (some k) m = none
reveal_parents (suc fuel) (some k) m = reveal_parents fuel (m.part k).parent (unhide k m)

-- What becomes of the part that is found; a parent comes before its children.
pub mark_found : ℕ → Menu → Menu
mark_found k m =
    if (m.part k).is_hidden
    then put_part k (record (m.part k) { is_hidden = false; is_active = true }) m
    else m

pub reveal : ℕ → Menu → Option Menu
unfolding reveal_parents mark_found
reveal k m = reveal_parents (k + 1) (some k) (mark_found k m)

abbrev pub and_then : {A B : Type 0} → Option A → (A → Option B) → Option B
and_then none k = none
and_then (some a) k = k a

-- The variable `found`, and the parts.
abbrev pub Search : Type 0
Search = Bool × Menu

pub visit_part : Text → ℕ → Search → Option Search
visit_part page k (found, m) =
    if includes page (m.part k).page_id && not found
    then and_then (reveal k m) (λ q. some (true, q))
    else some (found, m)

-- `parts.forEach(…)` over n parts, from the place k on.
pub visit : ℕ → ℕ → Text → Search → Option Search
visit zero k page s = some s
visit (suc n) k page s = and_then (visit_part page k s) (visit n (k + 1) page)

abbrev pub slash : ℕ
slash = b'/'

-- The `do … while`, of which every round but the last takes at least one unit off the page's id.
pub rounds : ℕ → Text → Search → Option Menu
rounds zero page s = none
rounds (suc fuel) page (found, m) = and_then (visit m.size 0 page (found, m)) λ (found', q).
    let page' = before_last slash page in
    let rest = rounds fuel page' (found', q) in
    if has_unit slash page' && not found' then rest else some q

pub reveal_navigation_for_current_page : Text → Menu → Option Menu
reveal_navigation_for_current_page page m = rounds (length page + 1) page (false, m)

pub hide_all : Menu → Menu
hide_all m = record m { part = λ k. record (m.part k) { is_hidden = true } }

-- The side menu, with the `href` of each `.overview > a`.
pub record SideMenu : Type 0 where
  pub menu : Menu
  pub links : List Text

-- `displayNavigationFromPage` once the navigation has been fetched.
pub display_navigation_from_page : (path_to_root page : Text) → SideMenu → Option SideMenu
display_navigation_from_page path_to_root page s =
    and_then (reveal_navigation_for_current_page page (hide_all s.menu))
      λ m. some (record { menu = m; links = map (λ link. path_to_root ++ link) s.links })
