-- ===== src/Docs/Selector/Tests.antt =====
-- The escapes of CSS at concrete texts.
use lib_rabbit_job_queue.Common.{◌≡◌, refl, [], ◌∷◌}
use lib_rabbit_job_queue.Docs.Texts.{codes}
use lib_rabbit_job_queue.Docs.Selector.{css_value, css_value_from}

escaped : css_value (codes "shut\\64own\\#") ≡ codes "shutdown#"
unfolding css_value css_value_from codes
escaped = refl

-- A backslash at the end takes in what follows in the selector.
unclosed : css_value (codes "a\\1F600\\") ≡ 97 ∷ 0xD83D ∷ 0xDE00 ∷ b'"' ∷ b']' ∷ []
unfolding css_value css_value_from codes
unclosed = refl
