-- ===== src/Docs/Tabs/Laws.antt =====
-- A row of bookmarks shows an available one whenever it has one.
use mathlib.Core.Path.{ap₂}
use lib_rabbit_job_queue.Common.{
  ℕ, zero, suc, ◌≡◌, refl, sym, ◌∙◌, true, false, none, some, String, List, [], ◌∷◌, map, any,
  arith, Bool-cases, inl, inr, Option-cases,
}
use lib_rabbit_job_queue.Docs.Page.{Bookmark, Hinted}
use lib_rabbit_job_queue.Docs.Tabs.{
  is_available, choose, toggle_at, toggle_platform_dependent, row_active, first_available,
  refresh_row, refresh_platform_tabs,
}

-- The first available bookmark stands in the row, and is active once it is chosen.
chosen :
    (bs : List Bookmark) (k : ℕ)
    → first_available bs ≡ some k
    → (row_active (choose k bs) ≡ true)
      × (any is_available bs ≡ true)
      × ((index : String) × (toggle_at k bs ≡ some index))
unfolding choose first_available
chosen [] k e = cc
chosen (b ∷ bs) zero e = elim (Bool-cases (is_available b)) [
  | inl y ↦ (rw (y, any) refl, rw (y, any) refl, (b.toggle, refl))
  | inr n ↦ absurd (ground arith)
]
chosen (b ∷ bs) (suc k) e =
    let e' : first_available bs ≡ some k = ground arith in
    let ih = chosen bs k e' in (ground (arith, ih.0), ground (arith, ih.1), ih.2)

nothing : (bs : List Bookmark) → first_available bs ≡ none → any is_available bs ≡ false
unfolding first_available
nothing [] e = refl
nothing (b ∷ bs) e = ground (arith, nothing bs)

something : (bs : List Bookmark) → row_active bs ≡ true → any is_available bs ≡ true
something [] e = e
something (b ∷ bs) e = ground (arith, something bs)

refresh_row_lem :
    (h : Hinted)
    → row_active (refresh_row (row_active h.bookmarks) (first_available h.bookmarks) h).bookmarks
      ≡ any is_available h.bookmarks
unfolding refresh_row toggle_platform_dependent
refresh_row_lem h = elim (Bool-cases (row_active h.bookmarks)) [
  | inl y ↦ rw (y, refresh_row) (y ∙ sym (something h.bookmarks y))
  | inr n ↦ elim (Option-cases (first_available h.bookmarks)) [
    | inl o ↦ rw (n, o, refresh_row) (n ∙ sym (nothing h.bookmarks o))
    | inr (k, o) ↦
        let (now, one, (index, t)) = chosen h.bookmarks k o in
        rw (n, o, refresh_row, t, toggle_platform_dependent) (now ∙ sym one)
  ]
]

-- After `refreshPlatformTabs` a row of bookmarks has an active bookmark that is available exactly when
-- it has an available one at all.
pub refresh_platform_tabs-active :
    (hs : List Hinted)
    → map (λ (h : Hinted). row_active h.bookmarks) (refresh_platform_tabs hs)
      ≡ map (λ (h : Hinted). any is_available h.bookmarks) hs
unfolding refresh_platform_tabs
refresh_platform_tabs-active [] = refl
refresh_platform_tabs-active (h ∷ hs) =
    ap₂ ◌∷◌ (refresh_row_lem h) (refresh_platform_tabs-active hs)
