-- ===== src/Docs/Navigation/Search.antt =====
-- The loop over a page's id: which part of the menu it chooses, and that it ends.
use lib_rabbit_job_queue.Common.{
  ℕ, zero, suc, ◌+◌, ◌<◌, ◌≡◌, refl, Bool, true, false, Option, none, some, arith, length,
  if◌then◌else◌, Bool-cases, Option-cases, inl, inr, map, ◌++◌, subst,
}
use lib_rabbit_job_queue.Docs.Texts.{Text, includes, has_unit, before_last, before_last-lt}
use lib_rabbit_job_queue.Docs.Navigation.{
  Menu, and_then, reveal, visit_part, visit, slash, rounds, reveal_navigation_for_current_page,
  hide_all, SideMenu, display_navigation_from_page,
}
use lib_rabbit_job_queue.Docs.Navigation.Reveal.{IsNested, AllHidden, Shows, reveal-Shows}

-- The first part, of n from the place k on, whose id holds the text.
unfoldable pub first_match : ℕ → ℕ → Text → Menu → Option ℕ
first_match zero k page m = none
first_match (suc n) k page m =
    let rest = first_match n (k + 1) page m in
    if includes page (m.part k).page_id then some k else rest

abbrev pub or_else : Option ℕ → Option ℕ → Option ℕ
or_else none o = o
or_else (some k) o = some k

-- The part for a page: the first that holds its id, or else, as long as this has a slash, the part for
-- the id without what follows its last slash.
unfoldable pub chosen_within : ℕ → Text → Menu → Option ℕ
chosen_within zero page m = none
chosen_within (suc fuel) page m =
    let rest = chosen_within fuel (before_last slash page) m in
    or_else (first_match m.size 0 page m)
      (if has_unit slash (before_last slash page) then rest else none)

abbrev pub chosen : Text → Menu → Option ℕ
chosen page m = chosen_within (length page + 1) page m

-- What a round leaves, by the first match.
abbrev visited : Option ℕ → Menu → Option (Bool × Menu)
visited none m = some (false, m)
visited (some k) m = and_then (reveal k m) (λ q. some (true, q))

visit-true : (n k : ℕ) (page : Text) (m : Menu) → visit n k page (true, m) ≡ some (true, m)
unfolding visit visit_part
visit-true zero k page m = refl
visit-true (suc n) k page m = ground (arith, visit-true n (k + 1) page m)

visit_after :
    (n k : ℕ) (page : Text) (r : Option Menu)
    → and_then (and_then r (λ q. some (true, q))) (visit n k page)
      ≡ and_then r (λ q. some (true, q))
visit_after n k page none = refl
visit_after n k page (some q) = visit-true n k page q

visit-first_match :
    (n k : ℕ) (page : Text) (m : Menu)
    → visit n k page (false, m) ≡ visited (first_match n k page m) m
unfolding visit visit_part first_match
visit-first_match zero k page m = refl
visit-first_match (suc n) k page m = elim (Bool-cases (includes page (m.part k).page_id)) [
  | inl y ↦ rw y (visit_after n (k + 1) page (reveal k m))
  | inr y ↦ rw y (visit-first_match n (k + 1) page m)
]

-- What is left of a hidden menu for the part that is chosen.
abbrev pub ShowsChosen : Menu → Option ℕ → Menu → Type 0
ShowsChosen m none q = q ≡ m
ShowsChosen m (some k) q = Shows m k q

rounds-ShowsChosen :
    (fuel : ℕ) (page : Text) (m : Menu)
    → IsNested m
    → AllHidden m
    → length page < fuel
    → (q : Menu) × (rounds fuel page (false, m) ≡ some q)
      × ShowsChosen m (chosen_within fuel page m) q
unfolding rounds chosen_within
rounds-ShowsChosen zero page m n h l = absurd (omega arith)
rounds-ShowsChosen (suc fuel) page m n h l = elim (Option-cases (first_match m.size 0 page m)) [
  | inl e ↦ elim (Bool-cases (has_unit slash (before_last slash page))) [
    | inl y ↦
        rw (visit-first_match m.size 0 page m, e, y)
          (rounds-ShowsChosen fuel (before_last slash page) m n h
            (omega (arith, before_last-lt slash page y)))
    | inr y ↦ rw (visit-first_match m.size 0 page m, e, y) (m, refl, refl)
  ]
  | inr (k, e) ↦
      let (q, f, s) = reveal-Shows k m n h in
      rw (visit-first_match m.size 0 page m, e, f) (q, ground arith, s)
]

first_match-hide_all :
    (n k : ℕ) (page : Text) (m : Menu) → first_match n k page (hide_all m) ≡ first_match n k page m
unfolding first_match hide_all
first_match-hide_all zero k page m = refl
first_match-hide_all (suc n) k page m = rw (first_match-hide_all n (k + 1) page m)

chosen_within-hide_all :
    (fuel : ℕ) (page : Text) (m : Menu)
    → chosen_within fuel page (hide_all m) ≡ chosen_within fuel page m
unfolding chosen_within first_match hide_all
chosen_within-hide_all zero page m = refl
chosen_within-hide_all (suc fuel) page m =
    rw
      (first_match-hide_all m.size 0 page m, chosen_within-hide_all fuel (before_last slash page) m)

-- For every page and every side menu in which a parent stands before its children, the scripts end:
-- the menu that was fetched is hidden but for the part chosen for the page and all the parts above it,
-- that part has become active, and every link leads to where it did from the root of the pages. Where
-- no part is chosen the whole menu is hidden.
pub display_navigation_from_page-ShowsChosen :
    (path_to_root page : Text) (s : SideMenu)
    → IsNested s.menu
    → (q : SideMenu) × (display_navigation_from_page path_to_root page s ≡ some q)
      × ShowsChosen (hide_all s.menu) (chosen page s.menu) q.menu
      × (q.links ≡ map (λ link. path_to_root ++ link) s.links)
unfolding display_navigation_from_page reveal_navigation_for_current_page hide_all
display_navigation_from_page-ShowsChosen path_to_root page s n =
    let (q, e, h) =
      rounds-ShowsChosen (length page + 1) page (hide_all s.menu) n (λ x. refl) (omega arith) in
    (
      record { menu = q; links = map (λ link. path_to_root ++ link) s.links },
      rw e refl,
      subst (λ o. ShowsChosen (hide_all s.menu) o q)
          (chosen_within-hide_all (length page + 1) page s.menu) h,
      refl,
    )
