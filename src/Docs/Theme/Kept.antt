-- ===== src/Docs/Theme/Kept.antt =====
-- The theme of a page and the one that the browser keeps.
use lib_rabbit_job_queue.Common.{
  ◌≡◌, refl, sym, ap, ◌∙◌, Bool, true, false, Option, none, some, List, [], ◌∷◌, if◌then◌else◌,
}
use lib_rabbit_job_queue.Docs.Theme.{
  SampleTheme, Theme, theme_for, init_playground, saved_dark_mode, head_script, dark_mode_switch,
  click_theme_button, open_page, ThemeEvent, click, ready, run_theme,
}

abbrev pub sample_theme : Bool → Bool → Option SampleTheme
sample_theme enabled dark = if enabled then some (theme_for dark) else none

-- The page, its samples and the browser agree on the theme.
pub record Agrees (enabled : Bool) (t : Theme) : Type 0 where
  pub stored : saved_dark_mode t.stored ≡ t.is_dark
  pub samples : t.playground ≡ sample_theme enabled t.is_dark

pub open_page-Agrees :
    (enabled : Bool) (stored : Option Bool) → Agrees enabled (open_page enabled stored)
unfolding open_page head_script dark_mode_switch init_playground
open_page-Agrees true none = record { stored = refl; samples = refl }
open_page-Agrees true (some true) = record { stored = refl; samples = refl }
open_page-Agrees true (some false) = record { stored = refl; samples = refl }
open_page-Agrees false none = record { stored = refl; samples = refl }
open_page-Agrees false (some true) = record { stored = refl; samples = refl }
open_page-Agrees false (some false) = record { stored = refl; samples = refl }

pub click-Agrees :
    (enabled : Bool) (t : Theme) → Agrees enabled t → Agrees enabled (click_theme_button enabled t)
unfolding click_theme_button init_playground
click-Agrees true t a = record { stored = refl; samples = refl }
click-Agrees false t a = record { stored = refl; samples = a.samples }

run_theme-Agrees :
    (enabled : Bool) (es : List ThemeEvent) (t : Theme)
    → Agrees enabled t
    → Agrees enabled (run_theme enabled es t)
unfolding run_theme
run_theme-Agrees enabled [] t a = a
run_theme-Agrees enabled (click ∷ es) t a = run_theme-Agrees enabled es _ (click-Agrees enabled t a)
run_theme-Agrees enabled (ready i ∷ es) t a =
    run_theme-Agrees enabled es _ (record { stored = a.stored; samples = a.samples })

pub open_page-is_dark :
    (enabled : Bool) (stored : Option Bool)
    → (open_page enabled stored).is_dark ≡ saved_dark_mode stored
unfolding open_page head_script dark_mode_switch init_playground
open_page-is_dark true none = refl
open_page-is_dark true (some true) = refl
open_page-is_dark true (some false) = refl
open_page-is_dark false none = refl
open_page-is_dark false (some true) = refl
open_page-is_dark false (some false) = refl

-- Whatever is clicked on a page, a page that is opened next is dark if and only if that one was, and
-- its samples, if there are any, have the theme that those had.
open_page-run_theme :
    (enabled : Bool) (stored : Option Bool) (es : List ThemeEvent)
    → ((open_page enabled (run_theme enabled es (open_page enabled stored)).stored).is_dark
        ≡ (run_theme enabled es (open_page enabled stored)).is_dark)
      × ((open_page enabled (run_theme enabled es (open_page enabled stored)).stored).playground
          ≡ (run_theme enabled es (open_page enabled stored)).playground)
open_page-run_theme enabled stored es =
    let left = run_theme enabled es (open_page enabled stored) in
    let a =
      run_theme-Agrees enabled es (open_page enabled stored) (open_page-Agrees enabled stored) in
    let dark = open_page-is_dark enabled left.stored ∙ a.stored in
    (
      dark,
      (open_page-Agrees enabled left.stored).samples
          ∙ ap (sample_theme enabled) dark
          ∙ sym a.samples,
    )
