-- ===== src/Docs/Anchors/Found.antt =====
-- A hash that leads to a link, on a page that is still loading.
use lib_rabbit_job_queue.Common.{
  ℕ, ◌≡◌, refl, ap, ◌∙◌, true, false, Option, none, some, [], ◌∷◌, ◌++◌,
}
use lib_rabbit_job_queue.Docs.Texts.{Text}
use lib_rabbit_job_queue.Docs.Selector.{css_value}
use lib_rabbit_job_queue.Docs.Sections.{TabPage}
use lib_rabbit_job_queue.Docs.Anchors.{
  Link, Anchors, search_for_tab, handle_anchor, scroll_to_element_in_content, find_link, take_away,
  put_highlight, toggle_tab, fire_scroll,
}
use lib_rabbit_job_queue.Docs.Anchors.Highlight.{target, take_away-links}

-- The two steps that highlight leave the scrolling alone.
take_away_frame :
    (o : Option ℕ) (a : Anchors)
    → ((take_away o a).has_offset ≡ a.has_offset)
      × ((take_away o a).waiting ≡ a.waiting)
      × ((take_away o a).scrolled ≡ a.scrolled)
take_away_frame none a = (refl, refl, refl)
take_away_frame (some y) a = (refl, refl, refl)

put_highlight_frame :
    (o : Option ℕ) (a : Anchors)
    → ((put_highlight o a).has_offset ≡ a.has_offset)
      × ((put_highlight o a).waiting ≡ a.waiting)
      × ((put_highlight o a).scrolled ≡ a.scrolled)
put_highlight_frame none a = (refl, refl, refl)
put_highlight_frame (some y) a = (refl, refl, refl)

scroll-waits :
    (l : Link) (a : Anchors)
    → a.has_offset ≡ false
    → ((scroll_to_element_in_content l a).waiting ≡ a.waiting ++ l ∷ [])
      × ((scroll_to_element_in_content l a).scrolled ≡ a.scrolled)
unfolding scroll_to_element_in_content
scroll-waits l a h = simp h (refl, refl)

-- Its tab is chosen, and a timer waits to scroll to it.
pub handle_anchor-found :
    (hash : Text) (p : TabPage) (a : Anchors) (l : Link)
    → target hash a.links ≡ some l
    → a.has_offset ≡ false
    → ((handle_anchor hash (p, a)).0 ≡ toggle_tab (search_for_tab l.togglables) p)
      × ((handle_anchor hash (p, a)).1.waiting ≡ a.waiting ++ l ∷ [])
      × ((handle_anchor hash (p, a)).1.scrolled ≡ a.scrolled)
unfolding handle_anchor
handle_anchor-found [] p a l h early = cc
handle_anchor-found (sign ∷ anchor) p a l h early =
    let there : find_link (css_value anchor) (take_away a.highlighted a).links ≡ some l =
      ap (find_link (css_value anchor)) (take_away-links a.highlighted a) ∙ h in
    let (o, w, c) = take_away_frame a.highlighted a in
    let (o', w', c') = put_highlight_frame l.content (take_away a.highlighted a) in
    let (w'', c'') =
      scroll-waits l (put_highlight l.content (take_away a.highlighted a)) (o' ∙ o ∙ early) in
    rw there (refl, w'' ∙ ap (λ ws. ws ++ l ∷ []) (w' ∙ w), c'' ∙ c' ∙ c)

pub fire-scrolls :
    (a : Anchors) (l : Link)
    → a.waiting ≡ l ∷ []
    → a.has_offset ≡ true
    → (fire_scroll a.waiting a).scrolled ≡ a.scrolled ++ l ∷ []
fire-scrolls a l w h = rw w (simp h refl)

-- Without a hash no tab is chosen.
pub handle_anchor-nil : (p : TabPage) (a : Anchors) → (handle_anchor [] (p, a)).0 ≡ p
unfolding handle_anchor
handle_anchor-nil p a = refl
