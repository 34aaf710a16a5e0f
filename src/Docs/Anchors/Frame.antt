-- ===== src/Docs/Anchors/Frame.antt =====
-- What `handleAnchor` leaves alone.
use lib_rabbit_job_queue.Common.{
  ℕ, ◌≡◌, refl, sym, ◌∙◌, Option, none, some, [], ◌∷◌, Bool-cases, inl, inr,
}
use lib_rabbit_job_queue.Docs.Texts.{Text}
use lib_rabbit_job_queue.Docs.Selector.{css_value}
use lib_rabbit_job_queue.Docs.Sections.{TabPage}
use lib_rabbit_job_queue.Docs.Anchors.{
  Link, Anchors, take_away, put_highlight, show_link, find_link, scroll_to_element_in_content,
  handle_anchor,
}

-- The links, the offset and the errors are the same.
pub record Frame (a b : Anchors) : Type 0 where
  pub links : b.links ≡ a.links
  pub offset : b.has_offset ≡ a.has_offset
  pub errors : b.errors ≡ a.errors

pub Frame-refl : (a : Anchors) → Frame a a
Frame-refl a = record { links = refl; offset = refl; errors = refl }

pub Frame-trans : {a b c : Anchors} → Frame a b → Frame b c → Frame a c
Frame-trans f g = record {
  links = g.links ∙ f.links;
  offset = g.offset ∙ f.offset;
  errors = g.errors ∙ f.errors;
}

take_away-Frame : (o : Option ℕ) (a : Anchors) → Frame a (take_away o a)
take_away-Frame none a = Frame-refl a
take_away-Frame (some x) a = record { links = refl; offset = refl; errors = refl }

put_highlight-Frame : (o : Option ℕ) (a : Anchors) → Frame a (put_highlight o a)
put_highlight-Frame none a = Frame-refl a
put_highlight-Frame (some x) a = record { links = refl; offset = refl; errors = refl }

scroll-Frame : (l : Link) (a : Anchors) → Frame a (scroll_to_element_in_content l a)
unfolding scroll_to_element_in_content
scroll-Frame l a = elim (Bool-cases a.has_offset) [
  | inl y ↦ simp y (record { links = refl; offset = sym y; errors = refl })
  | inr n ↦ simp n (record { links = refl; offset = sym n; errors = refl })
]

show_link-Frame : (o : Option Link) (p : TabPage) (a : Anchors) → Frame a (show_link o (p, a)).1
show_link-Frame none p a = Frame-refl a
show_link-Frame (some l) p a =
    Frame-trans (put_highlight-Frame l.content a) (scroll-Frame l (put_highlight l.content a))

pub handle_anchor-Frame :
    (hash : Text) (p : TabPage) (a : Anchors) → Frame a (handle_anchor hash (p, a)).1
unfolding handle_anchor
handle_anchor-Frame [] p a = take_away-Frame a.highlighted a
handle_anchor-Frame (sign ∷ anchor) p a =
    let b = take_away a.highlighted a in
    Frame-trans (take_away-Frame a.highlighted a)
      (show_link-Frame (find_link (css_value anchor) b.links) p b)
