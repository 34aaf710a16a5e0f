-- ===== src/Docs/Anchors/Highlight.antt =====
-- Which element is highlighted.
use lib_rabbit_job_queue.Common.{
  ℕ, ◌≡◌, refl, ◌∙◌, Bool, false, Option, none, some, List, [], ◌∷◌, arith, ◌==◌, Bool-cases, inl,
  inr, ap,
}
use lib_rabbit_job_queue.Docs.Texts.{Text}
use lib_rabbit_job_queue.Docs.Selector.{css_value}
use lib_rabbit_job_queue.Docs.Sections.{TabPage}
use lib_rabbit_job_queue.Docs.Anchors.{
  Link, Anchors, take_away, put_highlight, show_link, find_link, scroll_to_element_in_content,
  handle_anchor,
}

abbrev pub is_at : Option ℕ → ℕ → Bool
is_at none x = false
is_at (some y) x = x == y

-- The element that is remembered is highlighted, and no other.
abbrev pub HighlightsOne : Anchors → Type 0
HighlightsOne a = (x : ℕ) → a.highlight x ≡ is_at a.highlighted x

-- Nothing is highlighted.
take_away-none :
    (o : Option ℕ) (a : Anchors)
    → a.highlighted ≡ o
    → HighlightsOne a
    → (x : ℕ) → (take_away o a).highlight x ≡ false
take_away-none none a e h x = ground (arith, h x)
take_away-none (some y) a e h x = ground (arith, h x)

pub take_away-links : (o : Option ℕ) (a : Anchors) → (take_away o a).links ≡ a.links
take_away-links none a = refl
take_away-links (some y) a = refl

take_away-highlighted :
    (o : Option ℕ) (a : Anchors) → a.highlighted ≡ o → (take_away o a).highlighted ≡ none
take_away-highlighted none a e = e
take_away-highlighted (some y) a e = refl

put_highlight-HighlightsOne :
    (o : Option ℕ) (a : Anchors)
    → ((x : ℕ) → a.highlight x ≡ false)
    → a.highlighted ≡ none
    → HighlightsOne (put_highlight o a) × ((put_highlight o a).highlighted ≡ o)
put_highlight-HighlightsOne none a h e = (λ x. rw (h x, e), e)
put_highlight-HighlightsOne (some y) a h e = (λ x. ground (arith, h x), refl)

scroll-HighlightsOne :
    (l : Link) (a : Anchors)
    → HighlightsOne a
    → HighlightsOne (scroll_to_element_in_content l a)
      × ((scroll_to_element_in_content l a).highlighted ≡ a.highlighted)
unfolding scroll_to_element_in_content
scroll-HighlightsOne l a h = elim (Bool-cases a.has_offset) [
  | inl y ↦ simp y (h, refl)
  | inr n ↦ simp n (h, refl)
]

abbrev pub content_of : Option Link → Option ℕ
content_of none = none
content_of (some l) = l.content

-- The link that a hash leads to.
abbrev pub target : Text → List Link → Option Link
target [] links = none
target (sign ∷ anchor) links = find_link (css_value anchor) links

show_link-HighlightsOne :
    (o : Option Link) (p : TabPage) (a : Anchors)
    → ((x : ℕ) → a.highlight x ≡ false)
    → a.highlighted ≡ none
    → HighlightsOne (show_link o (p, a)).1 × ((show_link o (p, a)).1.highlighted ≡ content_of o)
show_link-HighlightsOne none p a h e = (λ x. rw (h x, e), e)
show_link-HighlightsOne (some l) p a h e =
    let (one, same) = put_highlight-HighlightsOne l.content a h e in
    let (one', same') = scroll-HighlightsOne l (put_highlight l.content a) one in
    (one', same' ∙ same)

-- Whatever the page is opened at next, afterwards it highlights the element next to the link that the
-- hash leads to, and no other; where there is no such link or element it highlights nothing.
pub handle_anchor-HighlightsOne :
    (hash : Text) (p : TabPage) (a : Anchors)
    → HighlightsOne a
    → HighlightsOne (handle_anchor hash (p, a)).1
      × ((handle_anchor hash (p, a)).1.highlighted ≡ content_of (target hash a.links))
unfolding handle_anchor
handle_anchor-HighlightsOne [] p a h =
    let e = take_away-highlighted a.highlighted a refl in
    (λ x. rw (e, take_away-none a.highlighted a refl h x), e)
handle_anchor-HighlightsOne (sign ∷ anchor) p a h =
    let (one, at) =
      show_link-HighlightsOne (find_link (css_value anchor) (take_away a.highlighted a).links) p
        (take_away a.highlighted a) (take_away-none a.highlighted a refl h)
        (take_away-highlighted a.highlighted a refl) in
    (
      one,
      at
          ∙ ap (λ ls. content_of (find_link (css_value anchor) ls))
              (take_away-links a.highlighted a),
    )
