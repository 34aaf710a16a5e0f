-- ===== src/Docs/Theme.antt =====
-- docs/dokka/scripts/platform-content-handler.js: the dark mode of a page, which the browser keeps, and
-- the theme of its code samples. The first script of each page is in its HTML head.
pub mod Kept
use lib_rabbit_job_queue.Common.{
  ℕ, Bool, true, false, not, Option, none, some, List, [], ◌∷◌, ◌++◌, if◌then◌else◌,
}

pub data SampleTheme : Type 0 where
  darcula idea : SampleTheme

-- `stored` is the value under "dokka-dark-mode", `is_dark` the class "theme-dark" of the page, and
-- `playground` the theme of the last call of `KotlinPlayground`. The instances are those that have been
-- pushed since then, and `destroyed` those that were destroyed.
pub record Theme : Type 0 where
  pub stored : Option Bool
  pub is_dark : Bool
  pub playground : Option SampleTheme
  pub instances : List ℕ
  pub destroyed : List ℕ

abbrev pub theme_for : Bool → SampleTheme
theme_for dark = if dark then darcula else idea

-- What reading the name `KotlinPlayground` meets: a value, or nothing, where it throws a ReferenceError.
pub data Lookup : Type 0 where
  defined undefined : Lookup

-- `samplesAreEnabled`.
abbrev pub samples_are_enabled : Lookup → Bool
samples_are_enabled defined = true
samples_are_enabled undefined = false

-- `initPlayground`, with the answer of `samplesAreEnabled`.
pub init_playground : Bool → SampleTheme → Theme → Theme
init_playground false theme t = t
init_playground true theme t = record t {
  destroyed = t.destroyed ++ t.instances;
  instances = [];
  playground = some theme;
}

-- `getInstance`, when the samples are ready.
abbrev pub get_instance : ℕ → Theme → Theme
get_instance i t = record t { instances = t.instances ++ i ∷ [] }

abbrev pub saved_dark_mode : Option Bool → Bool
saved_dark_mode none = false
saved_dark_mode (some b) = b

-- The script in the head of a page, before anything else.
pub head_script : Theme → Theme
head_script t = if saved_dark_mode t.stored then record t { is_dark = true } else t

-- `darkModeSwitch` when a page is loaded.
pub dark_mode_switch : Bool → Theme → Theme
dark_mode_switch enabled t = init_playground enabled (theme_for (saved_dark_mode t.stored)) t

-- A click on the theme button.
pub click_theme_button : Bool → Theme → Theme
unfolding init_playground
click_theme_button enabled t =
    let dark = not t.is_dark in
    let t' = init_playground enabled (theme_for dark) (record t { is_dark = dark }) in
    record t' { stored = some dark }

-- A page that is opened in a browser that has kept the value.
unfoldable pub open_page : Bool → Option Bool → Theme
unfolding head_script dark_mode_switch
open_page enabled stored = dark_mode_switch enabled (
    head_script (record {
      stored = stored;
      is_dark = false;
      playground = none;
      instances = [];
      destroyed = [];
    }))

-- What happens on a page: a click on the button, or a sample is ready.
pub data ThemeEvent : Type 0 where
  click : ThemeEvent
  ready : ℕ → ThemeEvent

pub run_theme : Bool → List ThemeEvent → Theme → Theme
run_theme enabled [] t = t
run_theme enabled (click ∷ es) t = run_theme enabled es (click_theme_button enabled t)
run_theme enabled (ready i ∷ es) t = run_theme enabled es (get_instance i t)
