-- ===== src/Docs/Sections/Restore.antt =====
-- What a page shows when it is loaded again: the tab that was chosen last, on whichever page.
use mathlib.Core.Path.{ap₂}
use text.Mathlib.Text.{◌==◌ as str_eq}
use lib_rabbit_job_queue.Common.{
  ◌≡◌, refl, sym, ap, ◌∙◌, Bool, true, false, Option, none, some, List, [], ◌∷◌, String, map, any,
  All, arith, Bool-cases, inl, inr,
}
use lib_rabbit_job_queue.Docs.Sections.{
  Child, TabPage, loaded, is_for, is_body, text_of, activate_tabs, toggle_sections, active_button,
  activate_body, activate_first, show_for, show_corresponding_tab_body, show_bodies, has_tab,
  restore_tab, init_tabs,
}

-- The first body has an element for what a row shows as its active tab.
abbrev pub has_body : String → List (List Child) → Bool
has_body key [] = false
has_body key (b ∷ bs) = any (is_body key) b

abbrev pub can_show : List (List Child) → Option Child → Bool
can_show bodies none = true
can_show bodies (some c) = has_body (text_of c.togglable) bodies

-- Elements with the activity left out.
abbrev pub quiet : List Child → List Child
quiet = map (λ (c : Child). record c { is_active = false })

abbrev pub marked : String → List Child → List Child
marked key = map (λ (c : Child). record c { is_active = is_for key c.togglable })

marked-quiet : (key : String) (cs : List Child) → marked key (quiet cs) ≡ marked key cs
marked-quiet key [] = refl
marked-quiet key (c ∷ cs) =
    ap (◌∷◌ (record c { is_active = is_for key c.togglable })) (marked-quiet key cs)

any-quiet : (key : String) (cs : List Child) → any (is_body key) (quiet cs) ≡ any (is_body key) cs
any-quiet key [] = refl
any-quiet key (c ∷ cs) = rw (any-quiet key cs)

activate_tabs-quiet :
    (key : String) (bs : List (List Child))
    → activate_tabs key (map quiet bs) ≡ activate_tabs key bs
unfolding activate_tabs
activate_tabs-quiet key [] = refl
activate_tabs-quiet key (b ∷ bs) = ap₂ ◌∷◌ (marked-quiet key b) (activate_tabs-quiet key bs)

has_body-quiet :
    (key : String) (bs : List (List Child)) → has_body key (map quiet bs) ≡ has_body key bs
has_body-quiet key [] = refl
has_body-quiet key (b ∷ bs) = any-quiet key b

activate_body-quiet :
    (key : String) (cs : List Child)
    → any (is_body key) cs ≡ true
    → (cs' : List Child) × (activate_body key cs ≡ some cs') × (quiet cs' ≡ quiet cs)
unfolding activate_body
activate_body-quiet key [] h = cc
activate_body-quiet key (c ∷ cs) h = elim (Bool-cases (is_body key c)) [
  | inl y ↦ rw (y, activate_body) (_, refl, refl)
  | inr n ↦
      let (cs', e, q) = activate_body-quiet key cs (ground arith) in
      rw (n, activate_body, e) (_, refl, ap (◌∷◌ (record c { is_active = false })) q)
]

activate_first-quiet :
    (key : String) (bs : List (List Child))
    → has_body key bs ≡ true
    → (bs' : List (List Child)) × (activate_first key bs ≡ some bs')
      × (map quiet bs' ≡ map quiet bs)
unfolding activate_first
activate_first-quiet key [] h = cc
activate_first-quiet key (b ∷ bs) h =
    let (b', e, q) = activate_body-quiet key b h in
    rw (e, activate_first) (_, refl, ap (λ c. c ∷ map quiet bs) q)

-- The page `q` is `p` but for the activity of its bodies.
pub record Alike (p q : TabPage) : Type 0 where
  pub sections : q.sections ≡ p.sections
  pub active_tab : q.active_tab ≡ p.active_tab
  pub bodies : map quiet q.bodies ≡ map quiet p.bodies

show_for-Alike :
    (o : Option Child) (p : TabPage)
    → can_show p.bodies o ≡ true
    → (q : TabPage) × (show_for o p ≡ loaded q) × Alike p q
show_for-Alike none p h = (p, refl, record { sections = refl; active_tab = refl; bodies = refl })
show_for-Alike (some c) p h =
    let (bs, e, q) = activate_first-quiet (text_of c.togglable) p.bodies h in
    (record p { bodies = bs }, rw e, record { sections = refl; active_tab = refl; bodies = q })

can_show-Alike :
    (o : Option Child) {p q : TabPage} → Alike p q → can_show q.bodies o ≡ can_show p.bodies o
can_show-Alike none a = refl
can_show-Alike (some c) {p} {q} a =
    let key = text_of c.togglable in
    sym (has_body-quiet key q.bodies) ∙ ap (has_body key) a.bodies ∙ has_body-quiet key p.bodies

abbrev pub CanShow : List (List Child) → List (List Child) → Type 0
CanShow bodies = All (λ section. can_show bodies (active_button section) ≡ true)

CanShow-Alike :
    (sections : List (List Child)) {p q : TabPage}
    → Alike p q
    → CanShow p.bodies sections
    → CanShow q.bodies sections
CanShow-Alike [] a h = tt
CanShow-Alike (s ∷ ss) a h = (can_show-Alike (active_button s) a ∙ h.0, CanShow-Alike ss a h.1)

pub show_bodies-Alike :
    (sections : List (List Child)) (p : TabPage)
    → CanShow p.bodies sections
    → (q : TabPage) × (show_bodies sections p ≡ loaded q) × Alike p q
unfolding show_bodies show_corresponding_tab_body
show_bodies-Alike [] p h = (p, refl, record { sections = refl; active_tab = refl; bodies = refl })
show_bodies-Alike (s ∷ ss) p h =
    let (q, e, a) = show_for-Alike (active_button s) p h.0 in
    let (r, f, b) = show_bodies-Alike ss q (CanShow-Alike ss a h.1) in
    (
      r,
      rw (show_bodies, e, f) refl,
      record {
        sections = b.sections ∙ a.sections;
        active_tab = b.active_tab ∙ a.active_tab;
        bodies = b.bodies ∙ a.bodies;
      },
    )

pub toggle_sections-Alike :
    (key : String) {p q : TabPage} → Alike p q → toggle_sections key q ≡ toggle_sections key p
unfolding toggle_sections
toggle_sections-Alike key {p} {q} a =
    ap₂
      (λ (ss bs : List (List Child)). record { sections = ss; bodies = bs; active_tab = some key })
      (ap (activate_tabs key) a.sections)
      (sym (activate_tabs-quiet key q.bodies)
        ∙ ap (activate_tabs key) a.bodies
        ∙ activate_tabs-quiet key p.bodies)

-- A page loads as if the kept tab had been clicked on it.
pub init_tabs_kept :
    (key : String) (fresh : TabPage)
    → fresh.active_tab ≡ some key
    → has_tab key fresh.sections ≡ true
    → CanShow fresh.bodies fresh.sections
    → init_tabs fresh ≡ loaded (toggle_sections key fresh)
unfolding init_tabs
init_tabs_kept key fresh kept t h =
    let (q, e, a) = show_bodies-Alike fresh.sections fresh h in
    let tab : q.active_tab ≡ some key = a.active_tab ∙ kept in
    let there : has_tab key q.sections ≡ true = ap (has_tab key) a.sections ∙ t in
    rw (init_tabs, e, restore_tab, tab, restore_tab, there)
      (ap loaded (toggle_sections-Alike key a))
