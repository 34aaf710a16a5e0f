-- ===== src/Docs/Clipboard/Tests.antt =====
-- A page with two icons, at which the theorems about copying are applied.
use lib_rabbit_job_queue.Common.{ℕ, ◌≡◌, refl, true, false, none, some, List, [], ◌∷◌, length}
use lib_rabbit_job_queue.Docs.Texts.{Text, codes, before_first, after_first}
use lib_rabbit_job_queue.Docs.Clipboard.{
  Icons, Window, text, copied, refused, threw, hash_sign, Event, copy_icon, anchor_icon, timer,
  handle, run,
}
use lib_rabbit_job_queue.Docs.Clipboard.Popups.{fires, run-fires}
use lib_rabbit_job_queue.Docs.Clipboard.Addresses.{anchor_icon-clipboard}

abbrev icons : Icons
icons = record {
  has_popup = λ x. true;
  block = λ x. x;
  pointing_to = λ x. some (codes "connection");
}

abbrev window : Window
window = record {
  href = codes "docs/index.html#executor";
  selection = none;
  textareas = [];
  clipboard = none;
  popup = λ x. false;
  timers = [];
}

abbrev clicks : List Event
clicks =
    copy_icon 1 copied ∷ anchor_icon 2 refused ∷ timer ∷ copy_icon 1 threw ∷ copy_icon 1 copied ∷ []

run-fires_example :
    ((x : ℕ)
      → (run icons
            (fires (length (run icons clicks window).timers))
            (run icons clicks window)).popup
          x
        ≡ false)
    × ((run icons
          (fires (length (run icons clicks window).timers))
          (run icons clicks window)).textareas
        ≡ [])
run-fires_example = run-fires icons clicks window (record { popups = λ x. refl; textareas = refl })

anchor_icon-clipboard_example :
    (address : Text) × ((handle icons (anchor_icon 2 copied) window).clipboard
      ≡ some (text address))
    × (before_first hash_sign address ≡ before_first hash_sign window.href)
    × (after_first hash_sign address ≡ codes "connection")
anchor_icon-clipboard_example = anchor_icon-clipboard icons 2 (codes "connection") window refl
