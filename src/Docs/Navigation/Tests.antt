-- ===== src/Docs/Navigation/Tests.antt =====
-- A menu of three parts, for whose pages it is shown.
use lib_rabbit_job_queue.Common.{
  ℕ, zero, suc, ◌≡◌, refl, false, arith, Option, none, some, [], ◌∷◌, ◌++◌, map, String,
}
use lib_rabbit_job_queue.Docs.Texts.{codes, includes}
use lib_rabbit_job_queue.Docs.Navigation.{Part, SideMenu, hide_all, display_navigation_from_page}
use lib_rabbit_job_queue.Docs.Navigation.Reveal.{IsNested}
use lib_rabbit_job_queue.Docs.Navigation.Search.{
  ShowsChosen, chosen, first_match, chosen_within, display_navigation_from_page-ShowsChosen,
}

abbrev part_of : String → Option ℕ → Part
part_of id parent = record {
  page_id = codes id;
  parent = parent;
  is_hidden = false;
  is_active = false;
}

abbrev parts : ℕ → Part
parts zero = part_of "lib:://" none
parts (suc zero) = part_of "lib::jobs//" (some 0)
parts (suc (suc k)) = part_of "lib::jobs/QueueConfig//" (some 1)

parts-IsNested : IsNested (record { size = 3; part = parts })
parts-IsNested zero = tt
parts-IsNested (suc zero) = omega arith
parts-IsNested (suc (suc k)) = omega arith

abbrev fetched : SideMenu
fetched = record { menu = record { size = 3; part = parts }; links = codes "lib/index.html" ∷ [] }

-- A page below a part is shown by that part.
chosen_below : chosen (codes "lib::jobs/QueueConfig/hostname") fetched.menu ≡ some 2
unfolding codes includes first_match chosen_within
chosen_below = refl

display_navigation_from_page-ShowsChosen_example :
    (q : SideMenu) × (display_navigation_from_page
        (codes "../")
        (codes "lib::jobs/QueueConfig/hostname")
        fetched
      ≡ some q)
    × ShowsChosen
        (hide_all fetched.menu)
        (chosen (codes "lib::jobs/QueueConfig/hostname") fetched.menu)
        q.menu
    × (q.links ≡ map (λ link. codes "../" ++ link) fetched.links)
display_navigation_from_page-ShowsChosen_example =
    display_navigation_from_page-ShowsChosen (codes "../") (codes "lib::jobs/QueueConfig/hostname")
      fetched parts-IsNested
