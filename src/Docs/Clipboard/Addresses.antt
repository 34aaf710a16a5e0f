-- ===== src/Docs/Clipboard/Addresses.antt =====
-- The address that an anchor icon copies.
use lib_rabbit_job_queue.Common.{ℕ, ◌≡◌, refl, true, false, Bool, some, ◌∷◌, ◌++◌}
use lib_rabbit_job_queue.Docs.Texts.{
  Text, before_first, after_first, before_first-append, after_first-append,
}
use lib_rabbit_job_queue.Docs.Clipboard.{
  Icons, Window, text, copied, hash_sign, anchor_icon, handle, try_copy, copy_and_show_popup,
  copy_text_to_clipboard, href_without_currently_used_anchor,
}

try_copy-clipboard :
    (b : Bool) (x : ℕ) (w : Window) → (try_copy b copied x w).clipboard ≡ w.selection
try_copy-clipboard false x w = refl
try_copy-clipboard true x w = refl

-- A click on an anchor icon, where `execCommand` returns true, copies an address of the same page, whichever
-- anchor the page was opened at, that leads to the icon's anchor.
pub anchor_icon-clipboard :
    (icons : Icons) (x : ℕ) (name : Text) (w : Window)
    → icons.pointing_to x ≡ some name
    → (address : Text) × ((handle icons (anchor_icon x copied) w).clipboard ≡ some (text address))
      × (before_first hash_sign address ≡ before_first hash_sign w.href)
      × (after_first hash_sign address ≡ name)
unfolding handle copy_text_to_clipboard copy_and_show_popup href_without_currently_used_anchor
anchor_icon-clipboard icons x name w p = rw p (
  before_first hash_sign w.href ++ hash_sign ∷ name,
  try_copy-clipboard (icons.has_popup x) x _,
  before_first-append hash_sign w.href name,
  after_first-append hash_sign w.href name,
)
