-- ===== src/Ends/Acked.antt =====
-- Which notifications are acknowledged.
use mathlib.Core.Path.{ap₂}
use lib_rabbit_job_queue.Common.{◌≡◌, refl, List, [], ◌∷◌, ◌++◌, if◌then◌else◌}
use lib_rabbit_job_queue.Messages.{Parsed}
use lib_rabbit_job_queue.Delivery.Handlers.{Handling}
use lib_rabbit_job_queue.Ends.Notices.{
  Dispatcher, Notice, error_notice, success_notice, Ack, error_ack, success_ack, run_notice,
  Happening, registers_error, registers_success, runs, happen, on_error, on_success,
}

-- The acknowledgement of a notification, if `basicAck` returns.
abbrev pub ack_of : {Object : Type 0} → Notice Object → List Ack
ack_of (error_notice tag body acks) = if acks then error_ack tag ∷ [] else []
ack_of (success_notice tag body acks) = if acks then success_ack tag ∷ [] else []

abbrev pub acks_of : {Object E F : Type 0} → List (Happening Object E F) → List Ack
acks_of [] = []
acks_of (runs n ∷ hs) = ack_of n ++ acks_of hs
acks_of (_ ∷ hs) = acks_of hs

module _ {Object E F S T U : Type 0} (handle_error : Handling E T S)
    (handle_success : Handling F U S) (error_from : Object → Parsed T)
    (success_from : Object → Parsed U) where
  run_notice-acks :
      (d : Dispatcher E F) (n : Notice Object) (s : S)
      → (run_notice handle_error handle_success error_from success_from d n s).acks ≡ ack_of n
  unfolding run_notice
  run_notice-acks d (error_notice tag body acks) s = refl
  run_notice-acks d (success_notice tag body acks) s = refl

  -- Each notification that a worker runs is acknowledged, once and on its own channel, in the order of
  -- the runs, whether or not it can be read and whatever its handlers throw; only a `basicAck` that
  -- throws leaves one out.
  pub happen-acks :
      (hs : List (Happening Object E F)) (d : Dispatcher E F) (s : S)
      → (happen handle_error handle_success error_from success_from hs d s).0 ≡ acks_of hs
  unfolding happen
  happen-acks [] d s = refl
  happen-acks (registers_error h ∷ hs) d s = happen-acks hs (on_error h d) s
  happen-acks (registers_success h ∷ hs) d s = happen-acks hs (on_success h d) s
  happen-acks (runs n ∷ hs) d s =
      let r = run_notice handle_error handle_success error_from success_from d n s in
      ap₂ ◌++◌ (run_notice-acks d n s) (happen-acks hs d r.world)
