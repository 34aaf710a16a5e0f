-- ===== src/Docs/Sections/Tests.antt =====
-- A page with two tabs, at which the theorems about tabs are applied.
use lib_rabbit_job_queue.Common.{true, false, none, some, [], ◌∷◌, String}
use lib_rabbit_job_queue.Docs.Sections.{Child, TabPage, button, div}

abbrev tab : String → Child
tab key = record { tag = button; togglable = some key; is_active = false }

abbrev body : String → Child
body key = record { tag = div; togglable = some key; is_active = false }

-- As it is delivered, the page has its first tab active.
abbrev delivered : TabPage
delivered = record {
  sections = (record (tab "Types") { is_active = true } ∷ tab "Functions" ∷ []) ∷ [];
  bodies = (body "Types" ∷ body "Functions" ∷ []) ∷ [];
  active_tab = none;
}

abbrev reloaded : TabPage
reloaded = record delivered { active_tab = some "Functions" }
