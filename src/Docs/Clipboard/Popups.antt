-- ===== src/Docs/Clipboard/Popups.antt =====
-- The messages beside the icons: whatever is clicked, none stays.
use lib_rabbit_job_queue.Common.{
  ℕ, zero, suc, ◌≡◌, refl, Bool, true, false, ◌||◌, ◌&&◌, not, Option, none, some, List, [], ◌∷◌,
  ◌++◌, arith, ◌==◌, ==_iff, length, ◌∙◌,
}
use lib_rabbit_job_queue.Docs.Texts.{Text}
use lib_rabbit_job_queue.Docs.Clipboard.{
  Icons, Window, Command, copied, refused, threw, show_popup, try_copy, copy_and_show_popup,
  copy_elements_content_to_clipboard, copy_text_to_clipboard, copy_address, Event, copy_icon,
  anchor_icon, timer, fire, handle, run,
}

abbrev pub is_waiting : ℕ → List ℕ → Bool
is_waiting x [] = false
is_waiting x (y ∷ ys) = (x == y) || is_waiting x ys

-- A message that is shown has a timer, and no textarea is left.
pub record IsTidy (w : Window) : Type 0 where
  pub popups : (x : ℕ) → (w.popup x && not (is_waiting x w.timers)) ≡ false
  pub textareas : w.textareas ≡ []

is_waiting-append :
    (x : ℕ) (xs ys : List ℕ) → is_waiting x (xs ++ ys) ≡ (is_waiting x xs || is_waiting x ys)
is_waiting-append x [] ys = refl
is_waiting-append x (y ∷ xs) ys = ground (arith, is_waiting-append x xs ys)

show_popup-waits :
    (x : ℕ) (w : Window)
    → ((y : ℕ) → (w.popup y && not (is_waiting y w.timers)) ≡ false)
    → (y : ℕ) → ((show_popup x w).popup y && not (is_waiting y (show_popup x w).timers)) ≡ false
show_popup-waits x w h y = ground (arith, h y, is_waiting-append y w.timers (x ∷ []), ==_iff y x)

-- The `try` takes no textarea away and adds none, and sets a timer for a message that it shows.
try_copy-popups :
    (b : Bool) (command : Command) (x : ℕ) (w : Window)
    → ((y : ℕ) → (w.popup y && not (is_waiting y w.timers)) ≡ false)
    → (y : ℕ)
    → ((try_copy b command x w).popup y && not (is_waiting y (try_copy b command x w).timers))
      ≡ false
try_copy-popups b threw x w h y = h y
try_copy-popups false copied x w h y = h y
try_copy-popups false refused x w h y = h y
try_copy-popups true copied x w h y = show_popup-waits x w h y
try_copy-popups true refused x w h y = show_popup-waits x w h y

try_copy-textareas :
    (b : Bool) (command : Command) (x : ℕ) (w : Window)
    → (try_copy b command x w).textareas ≡ w.textareas
try_copy-textareas b threw x w = refl
try_copy-textareas false copied x w = refl
try_copy-textareas false refused x w = refl
try_copy-textareas true copied x w = refl
try_copy-textareas true refused x w = refl

-- The n oldest timers fire.
pub fires : ℕ → List Event
fires zero = []
fires (suc n) = timer ∷ fires n

module _ (icons : Icons) where
  fire-IsTidy : (xs : List ℕ) (w : Window) → w.timers ≡ xs → IsTidy w → IsTidy (fire xs w)
  fire-IsTidy [] w e h = h
  fire-IsTidy (x ∷ xs) w e h = record {
    popups = λ y. ground (arith, h.popups y, ==_iff y x);
    textareas = h.textareas;
  }

  copy_address-IsTidy :
      (command : Command) (x : ℕ) (o : Option Text) (w : Window)
      → IsTidy w
      → IsTidy (copy_address icons command x o w)
  unfolding copy_text_to_clipboard copy_and_show_popup
  copy_address-IsTidy command x none w h = h
  copy_address-IsTidy command x (some name) w h = record {
    popups = try_copy-popups (icons.has_popup x) command x _ h.popups;
    textareas = rw (try_copy-textareas (icons.has_popup x) command x, h.textareas) refl;
  }

  handle-IsTidy : (e : Event) (w : Window) → IsTidy w → IsTidy (handle icons e w)
  unfolding handle copy_elements_content_to_clipboard copy_and_show_popup
  handle-IsTidy (copy_icon x command) w h = record {
    popups = try_copy-popups (icons.has_popup x) command x _ h.popups;
    textareas = try_copy-textareas (icons.has_popup x) command x _ ∙ h.textareas;
  }
  handle-IsTidy (anchor_icon x command) w h =
      copy_address-IsTidy command x (icons.pointing_to x) w h
  handle-IsTidy timer w h = fire-IsTidy w.timers w refl h

  pub run-IsTidy : (es : List Event) (w : Window) → IsTidy w → IsTidy (run icons es w)
  unfolding run
  run-IsTidy [] w h = h
  run-IsTidy (e ∷ es) w h = run-IsTidy es (handle icons e w) (handle-IsTidy e w h)

  fire_all :
      (xs : List ℕ) (w : Window)
      → w.timers ≡ xs
      → IsTidy w
      → (x : ℕ) → (run icons (fires (length xs)) w).popup x ≡ false
  unfolding run fires handle
  fire_all [] w e h x = ground (arith, h.popups x)
  fire_all (y ∷ ys) w e h x =
      rw e (fire_all ys (fire (y ∷ ys) w) refl (fire-IsTidy (y ∷ ys) w e h) x)

  -- Whatever is clicked and whichever calls of `execCommand` copy, refuse or throw, once as many timers have fired as are still to fire
  -- no message is shown any more, and no textarea is left in the page.
  pub run-fires :
      (es : List Event) (w : Window)
      → IsTidy w
      → ((x : ℕ)
          → (run icons (fires (length (run icons es w).timers)) (run icons es w)).popup x ≡ false)
        × ((run icons (fires (length (run icons es w).timers)) (run icons es w)).textareas ≡ [])
  run-fires es w h =
      let tidy = run-IsTidy es w h in
      let v = run icons es w in
      (fire_all v.timers v refl tidy, (run-IsTidy (fires (length v.timers)) v tidy).textareas)
