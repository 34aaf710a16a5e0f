-- ===== src/Docs/Clipboard.antt =====
-- docs/dokka/scripts/clipboard.js: the icons that copy a code block or the address of an anchor, and
-- the message beside them that is taken away by a timer.
pub mod Popups
pub mod Addresses
mod Tests
use lib_rabbit_job_queue.Common.{
  ℕ, Bool, true, false, Option, none, some, List, [], ◌∷◌, ◌++◌, ◌==◌, if◌then◌else◌,
}
use lib_rabbit_job_queue.Docs.Texts.{Text, before_first}

-- What is selected and copied: the contents of an element, or the text of a textarea.
pub data Copied : Type 0 where
  contents : ℕ → Copied
  text : Text → Copied

-- The icons of a page: whether an icon has a next sibling, the parent of its parent, and its
-- `pointing-to`.
pub record Icons : Type 0 where
  pub has_popup : ℕ → Bool
  pub block : ℕ → ℕ
  pub pointing_to : ℕ → Option Text

-- `popup x` is the class "active-popup" of the sibling of the icon x, and `timers` are the icons whose
-- timers are still to fire, in the order in which they were set.
pub record Window : Type 0 where
  pub href : Text
  pub selection : Option Copied
  pub textareas : List Text
  pub clipboard : Option Copied
  pub popup : ℕ → Bool
  pub timers : List ℕ

abbrev pub set_popup : ℕ → Bool → Window → Window
set_popup x b w = record w { popup = λ y. if y == x then b else w.popup y }

-- What `execCommand` does: it returns true, it returns false and copies nothing, or it throws.
pub data Command : Type 0 where
  copied refused threw : Command

-- The message beside the icon x, with its timer.
abbrev pub show_popup : ℕ → Window → Window
show_popup x w = let w' = set_popup x true w in record w' { timers = w'.timers ++ x ∷ [] }

-- The `try` of `copyAndShowPopup`, which does not look at what `execCommand` returns. Where the icon
-- has no sibling the next line throws, and no timer is set.
abbrev pub try_copy : (has_popup : Bool) → Command → ℕ → Window → Window
try_copy has_popup threw x w = w
try_copy false copied x w = record w { clipboard = w.selection }
try_copy false refused x w = w
try_copy true copied x w = show_popup x (record w { clipboard = w.selection })
try_copy true refused x w = show_popup x w

-- `copyAndShowPopup`: `after` runs however the `try` ends.
pub copy_and_show_popup : Icons → Command → ℕ → (Window → Window) → Window → Window
copy_and_show_popup icons command x after w = after (try_copy (icons.has_popup x) command x w)

pub copy_elements_content_to_clipboard : Icons → Command → ℕ → Window → Window
unfolding copy_and_show_popup
copy_elements_content_to_clipboard icons command x w =
    copy_and_show_popup icons command x (λ w. record w { selection = none })
      (record w { selection = some (contents (icons.block x)) })

abbrev pub without_last : List Text → List Text
without_last [] = []
without_last (t ∷ []) = []
without_last (t ∷ u ∷ ts) = t ∷ without_last (u ∷ ts)

-- The textarea is the last child of the body; with it goes the selection in it.
pub copy_text_to_clipboard : Icons → Command → ℕ → Text → Window → Window
unfolding copy_and_show_popup
copy_text_to_clipboard icons command x t w =
    copy_and_show_popup icons command x
      (λ w. record w { textareas = without_last w.textareas; selection = none })
      (record w { textareas = w.textareas ++ t ∷ []; selection = some (text t) })

abbrev pub hash_sign : ℕ
hash_sign = b'#'

pub href_without_currently_used_anchor : Window → Text
href_without_currently_used_anchor w = before_first hash_sign w.href

-- The handler of an anchor icon.
abbrev pub copy_address : Icons → Command → ℕ → Option Text → Window → Window
copy_address icons command x none w = w
copy_address icons command x (some name) w =
    copy_text_to_clipboard icons command x
      (href_without_currently_used_anchor w ++ hash_sign ∷ name) w

-- What happens on the page: a click on a copy icon or on an anchor icon, with what `execCommand`
-- does, or the oldest timer fires.
pub data Event : Type 0 where
  copy_icon anchor_icon : ℕ → Command → Event
  timer : Event

abbrev pub fire : List ℕ → Window → Window
fire [] w = w
fire (x ∷ xs) w = set_popup x false (record w { timers = xs })

pub handle : Icons → Event → Window → Window
handle icons (copy_icon x command) w = copy_elements_content_to_clipboard icons command x w
handle icons (anchor_icon x command) w = copy_address icons command x (icons.pointing_to x) w
handle icons timer w = fire w.timers w

pub run : Icons → List Event → Window → Window
run icons [] w = w
run icons (e ∷ es) w = run icons es (handle icons e w)
