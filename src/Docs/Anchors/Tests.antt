-- ===== src/Docs/Anchors/Tests.antt =====
-- A page with two links, opened at the second while the element of the first is highlighted.
use lib_rabbit_job_queue.Common.{ℕ, ◌≡◌, refl, true, Option, none, some, [], ◌∷◌, ◌==◌}
use lib_rabbit_job_queue.Docs.Texts.{Text, codes}
use lib_rabbit_job_queue.Docs.Selector.{css_value, css_value_from}
use lib_rabbit_job_queue.Docs.Sections.{TabPage}
use lib_rabbit_job_queue.Docs.Anchors.{Link, Anchors, find_link, handle_anchor}
use lib_rabbit_job_queue.Docs.Anchors.Highlight.{HighlightsOne, handle_anchor-HighlightsOne}

abbrev link : Text → Option ℕ → Link
link name content = record {
  name = name;
  togglables = none ∷ some "Functions" ∷ [];
  content = content;
}

abbrev opened : Anchors
opened = record {
  links = link (codes "dispatch") (some 1) ∷ link (codes "shutdown") (some 2) ∷ [];
  highlight = λ x. x == 1;
  highlighted = some 1;
  has_offset = true;
  waiting = [];
  scrolled = [];
  errors = 0;
}

abbrev no_tabs : TabPage
no_tabs = record { sections = []; bodies = []; active_tab = none }

handle_anchor-HighlightsOne_example :
    HighlightsOne (handle_anchor (codes "#shutdown") (no_tabs, opened)).1
    × ((handle_anchor (codes "#shutdown") (no_tabs, opened)).1.highlighted ≡ some 2)
unfolding find_link codes css_value css_value_from
handle_anchor-HighlightsOne_example =
    handle_anchor-HighlightsOne (codes "#shutdown") no_tabs opened (λ x. refl)
