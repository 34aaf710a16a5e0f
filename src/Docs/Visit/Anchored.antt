-- ===== src/Docs/Visit/Anchored.antt =====
-- What is highlighted in the course of a visit.
use lib_rabbit_job_queue.Common.{
  ℕ, ◌≡◌, refl, sym, ap, ◌∙◌, Bool, true, false, List, [], ◌∷◌, String, subst, if◌then◌else◌,
  Bool-cases, inl, inr,
}
use lib_rabbit_job_queue.Docs.Texts.{Text}
use lib_rabbit_job_queue.Docs.Sections.{TabPage}
use lib_rabbit_job_queue.Docs.Sections.Restore.{CanShow}
use lib_rabbit_job_queue.Docs.Theme.{Lookup, samples_are_enabled}
use lib_rabbit_job_queue.Docs.Anchors.{Link, Anchors, handle_anchor, fire_scroll}
use lib_rabbit_job_queue.Docs.Anchors.Highlight.{
  HighlightsOne, content_of, target, handle_anchor-HighlightsOne,
}
use lib_rabbit_job_queue.Docs.Anchors.Frame.{handle_anchor-Frame}
use lib_rabbit_job_queue.Docs.Load.{
  Site, finished, load, anchor_step, click_left_toggler, click_main,
}
use lib_rabbit_job_queue.Docs.Load.Anchor.{full, load-full}
use lib_rabbit_job_queue.Docs.Visit.{
  Storage, deliver_page, EarlyEvent, early_hash_change, early_timer, happen_early, happen_early_all,
  SiteEvent, filter_button, tab, bookmark, theme_button, left_toggler, main_part, sample_ready,
  hash_change, timer, happen_on, happen_all,
}

-- The hash of the page's address.
abbrev pub hash_after : Text → SiteEvent → Text
hash_after hash (hash_change later) = later
hash_after hash _ = hash

abbrev pub last_hash : Text → List SiteEvent → Text
last_hash hash [] = hash
last_hash hash (e ∷ es) = last_hash (hash_after hash e) es

-- The element next to the link of the hash is highlighted, and the scrolling has met no error since.
record Anchored (links : List Link) (errors : ℕ) (hash : Text) (a : Anchors) : Type 0 where
  same_links : a.links ≡ links
  one : HighlightsOne a
  at : a.highlighted ≡ content_of (target hash links)
  offset : a.has_offset ≡ true
  calm : a.errors ≡ errors

module _ {links : List Link} {errors : ℕ} where
  handled :
      (hash : Text) (p : TabPage) (a : Anchors)
      → a.links ≡ links
      → HighlightsOne a
      → a.errors ≡ errors
      → Anchored links errors hash (record (handle_anchor hash (p, a)).1 { has_offset = true })
  handled hash p a l one calm =
      let f = handle_anchor-Frame hash p a in
      let (lit, at) = handle_anchor-HighlightsOne hash p a one in
      record {
        same_links = f.links ∙ l;
        one = lit;
        at = at ∙ ap (λ ls. content_of (target hash ls)) l;
        offset = refl;
        calm = f.errors ∙ calm;
      }

  handled_later :
      (hash hash' : Text) (p : TabPage) (a : Anchors)
      → Anchored links errors hash a
      → Anchored links errors hash' (handle_anchor hash' (p, a)).1
  handled_later hash hash' p a h =
      let f = handle_anchor-Frame hash' p a in
      let k = handled hash' p a h.same_links h.one h.calm in
      record {
        same_links = k.same_links;
        one = k.one;
        at = k.at;
        offset = f.offset ∙ h.offset;
        calm = k.calm;
      }

  fire-Anchored :
      (hash : Text) (ls : List Link) (a : Anchors)
      → Anchored links errors hash a
      → Anchored links errors hash (fire_scroll ls a)
  fire-Anchored hash [] a h = h
  fire-Anchored hash (l ∷ ls) a h =
      simp (h.offset)
        (record { same_links = h.same_links; one = h.one; at = h.at; offset = refl; calm = h.calm })

  either :
      (hash : Text) (b : Bool) (s t : Site)
      → Anchored links errors hash s.anchors
      → Anchored links errors hash t.anchors
      → Anchored links errors hash (if b then s else t).anchors
  either hash true s t h k = h
  either hash false s t h k = k

  click_main-Anchored :
      (hash : Text) (s : Site)
      → Anchored links errors hash s.anchors
      → Anchored links errors hash (click_main s).anchors
  unfolding click_main
  click_main-Anchored hash s h = either hash s.main_closes _ s h h

  happen_on-Anchored :
      (samples : Bool) (hash : Text) (e : SiteEvent) (s : Site)
      → Anchored links errors hash s.anchors
      → Anchored links errors (hash_after hash e) (happen_on samples e s).anchors
  unfolding happen_on anchor_step click_left_toggler
  happen_on-Anchored samples hash (filter_button name) s h = either hash s.filter_listens _ s h h
  happen_on-Anchored samples hash (tab t) s h = click_main-Anchored hash _ h
  happen_on-Anchored samples hash (bookmark row k) s h = click_main-Anchored hash _ h
  happen_on-Anchored samples hash theme_button s h = either hash s.theme_switches _ s h h
  happen_on-Anchored samples hash left_toggler s h = either hash s.left_toggles _ s h h
  happen_on-Anchored samples hash main_part s h = click_main-Anchored hash s h
  happen_on-Anchored samples hash (sample_ready i) s h = h
  happen_on-Anchored samples hash (hash_change later) s h =
      handled_later hash later s.tabs s.anchors h
  happen_on-Anchored samples hash timer s h = fire-Anchored hash s.anchors.waiting s.anchors h

  happen_all-Anchored :
      (samples : Bool) (hash : Text) (es : List SiteEvent) (s : Site)
      → Anchored links errors hash s.anchors
      → Anchored links errors (last_hash hash es) (happen_all samples es s).anchors
  unfolding happen_all
  happen_all-Anchored samples hash [] s h = h
  happen_all-Anchored samples hash (e ∷ es) s h =
      happen_all-Anchored samples (hash_after hash e) es (happen_on samples e s)
        (happen_on-Anchored samples hash e s h)

-- The hash when the page has loaded.
abbrev pub hash_at_load : Text → List EarlyEvent → Text
hash_at_load hash [] = hash
hash_at_load hash (early_hash_change later ∷ es) = hash_at_load later es
hash_at_load hash (early_timer ∷ es) = hash_at_load hash es

-- The page that the browser loads, after what happened before.
abbrev pub early_page : Storage → List EarlyEvent → Site → Site
early_page kept early a = happen_early_all early (deliver_page kept a)

-- The links are the same, and at most the element that is remembered is highlighted.
record Early (links : List Link) (a : Anchors) : Type 0 where
  same_links : a.links ≡ links
  one : HighlightsOne a

fire-Early :
    {links : List Link} (ls : List Link) (a : Anchors)
    → Early links a
    → Early links (fire_scroll ls a)
fire-Early [] a h = h
fire-Early (l ∷ ls) a h = elim (Bool-cases a.has_offset) [
  | inl y ↦ simp y (record { same_links = h.same_links; one = h.one })
  | inr n ↦ simp n (record { same_links = h.same_links; one = h.one })
]

happen_early-Early :
    {links : List Link} (e : EarlyEvent) (s : Site)
    → Early links s.anchors
    → Early links (happen_early e s).anchors
unfolding happen_early anchor_step
happen_early-Early (early_hash_change hash) s h =
    let f = handle_anchor-Frame hash s.tabs s.anchors in
    record {
      same_links = f.links ∙ h.same_links;
      one = (handle_anchor-HighlightsOne hash s.tabs s.anchors h.one).0;
    }
happen_early-Early early_timer s h = fire-Early s.anchors.waiting s.anchors h

happen_early_all-Early :
    {links : List Link} (es : List EarlyEvent) (s : Site)
    → Early links s.anchors
    → Early links (happen_early_all es s).anchors
unfolding happen_early_all
happen_early_all-Early [] s h = h
happen_early_all-Early (e ∷ es) s h =
    happen_early_all-Early es (happen_early e s) (happen_early-Early e s h)

-- Whatever happens on a page, before it has loaded and afterwards, it highlights the element next to the link
-- that the last hash of its address leads to, and no other, and no timer that fires after it has loaded calls the
-- missing function `waitForScroll`. The page must have the elements of its frame and be able to show the tabs that it
-- has when it is loaded, and at most the element that is remembered may be highlighted on it as it is
-- delivered.
pub happen_all-HighlightsOne :
    (filter : Bool) (playground : Lookup) (deps : List (String × List String)) (hash : Text)
    (kept : Storage) (a : Site) (early : List EarlyEvent) (es : List SiteEvent)
    → CanShow (early_page kept early a).tabs.bodies (early_page kept early a).tabs.sections
    → HighlightsOne a.anchors
    → (p : Site) × (load
          (full filter playground)
          deps
          (hash_at_load hash early)
          (early_page kept early a)
        ≡ finished p)
      × HighlightsOne (happen_all (samples_are_enabled playground) es p).anchors
      × ((happen_all (samples_are_enabled playground) es p).anchors.highlighted
          ≡ content_of (target (last_hash (hash_at_load hash early) es) a.anchors.links))
      × ((happen_all (samples_are_enabled playground) es p).anchors.errors
          ≡ (early_page kept early a).anchors.errors)
unfolding deliver_page
happen_all-HighlightsOne filter playground deps hash kept a early es shows one =
    let b = early_page kept early a in
    let now = hash_at_load hash early in
    let start : Early a.anchors.links b.anchors =
      happen_early_all-Early early (deliver_page kept a)
        (record { same_links = refl; one = one }) in
    let (p, r, e, _, _, _, _, _, anchors) = load-full filter playground deps now b shows in
    let h =
      subst (Anchored a.anchors.links b.anchors.errors now) (sym anchors)
        (handled now r b.anchors start.same_links start.one refl) in
    let k = happen_all-Anchored (samples_are_enabled playground) now es p h in
    (p, e, k.one, k.at, k.calm)
