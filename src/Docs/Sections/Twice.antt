-- ===== src/Docs/Sections/Twice.antt =====
-- docs/dokka/scripts/platform-content-handler.js: two choices of a tab, one after the other, on one page.
use mathlib.Core.Path.{ap₂}
use lib_rabbit_job_queue.Common.{
  ◌≡◌, refl, ap, ◌∙◌, Option, none, some, List, [], ◌∷◌, String, arith, Bool-cases, inl, inr,
}
use lib_rabbit_job_queue.Docs.Sections.{
  Child, TabPage, loaded, is_for, activate_tabs, toggle_sections, toggle_sections_event_handler,
  has_tab, restore_tab, init_tabs,
}
use lib_rabbit_job_queue.Docs.Sections.Restore.{
  marked, CanShow, show_bodies-Alike, toggle_sections-Alike,
}

marked_twice : (key key' : String) (cs : List Child) → marked key (marked key' cs) ≡ marked key cs
marked_twice key key' [] = refl
marked_twice key key' (c ∷ cs) =
    ap (◌∷◌ (record c { is_active = is_for key c.togglable })) (marked_twice key key' cs)

activate_tabs_twice :
    (key key' : String) (bs : List (List Child))
    → activate_tabs key (activate_tabs key' bs) ≡ activate_tabs key bs
unfolding activate_tabs
activate_tabs_twice key key' [] = refl
activate_tabs_twice key key' (b ∷ bs) =
    ap₂ ◌∷◌ (marked_twice key key' b) (activate_tabs_twice key key' bs)

-- What was kept before does not matter to a choice.
pub toggle_sections-record :
    (key : String) (p : TabPage) (t : Option String)
    → toggle_sections key (record p { active_tab = t }) ≡ toggle_sections key p
unfolding toggle_sections
toggle_sections-record key p t = refl

-- The later choice wins.
toggle_sections_twice :
    (key key' : String) (p : TabPage)
    → toggle_sections key (toggle_sections key' p) ≡ toggle_sections key p
unfolding toggle_sections
toggle_sections_twice key key' p =
    ap₂
      (λ (ss bs : List (List Child)). record { sections = ss; bodies = bs; active_tab = some key })
      (activate_tabs_twice key key' p.sections) (activate_tabs_twice key key' p.bodies)

-- Each row of tabs has the handler twice, so that a click runs it two times: the second run changes
-- nothing.
pub toggle_sections_event_handler-twice :
    (target : Option String) (p : TabPage)
    → toggle_sections_event_handler target (toggle_sections_event_handler target p)
      ≡ toggle_sections_event_handler target p
unfolding toggle_sections_event_handler
toggle_sections_event_handler-twice none p = refl
toggle_sections_event_handler-twice (some key) p = ground (arith, toggle_sections_twice key key p)

restored_then :
    (key : String) (o : Option String) (q : TabPage)
    → toggle_sections key (restore_tab o q) ≡ toggle_sections key q
unfolding restore_tab
restored_then key none q = refl
restored_then key (some k) q = elim (Bool-cases (has_tab k q.sections)) [
  | inl y ↦ rw (y) (toggle_sections_twice key k q)
  | inr n ↦ rw (n) refl
]

-- A page that can show what it is delivered with loads, and a tab that is chosen then is shown as if it had
-- been chosen at once.
pub init_tabs_then :
    (p : TabPage)
    → CanShow p.bodies p.sections
    → (q : TabPage) × (init_tabs p ≡ loaded q)
      × ((key : String) → toggle_sections key q ≡ toggle_sections key p)
unfolding init_tabs
init_tabs_then p h =
    let (q, e, a) = show_bodies-Alike p.sections p h in
    (
      restore_tab q.active_tab q,
      rw (init_tabs, e) refl,
      λ key. restored_then key q.active_tab q ∙ toggle_sections-Alike key a,
    )
