-- ===== src/Ends/Tests.antt =====
-- Two ends of the queues with a connection of two channels, at which the theorems about them are applied.
use lib_rabbit_job_queue.Common.{
  ℕ, ◌+◌, ◌*◌, ◌/◌, ◌≤◌, ◌≡◌, refl, true, false, none, some, List, [], ◌∷◌, String, if◌then◌else◌,
  ltb, arith,
}
use lib_rabbit_job_queue.Common.Int.{ℤ, pos, negsuc, pos_part}
use lib_rabbit_job_queue.Common.Duration.{Duration, in_whole_seconds}
use lib_rabbit_job_queue.Messages.{
  parsed, Parsed, rejected, null_pointer, error_from_json, error_to_json, dispatch_to_json,
  dispatch_from_json, ErrorNotification, JobDispatch,
}
use lib_rabbit_job_queue.Delivery.Handlers.{Handling, execute}
use lib_rabbit_job_queue.Delivery.{deliver}
use lib_rabbit_job_queue.Settings.{new_executor_config}
use lib_rabbit_job_queue.Messages.Trees.{
  Tree, Fields, number, send, trees, trees_laws, plain, plain_laws,
}
use lib_rabbit_job_queue.Ends.Arriving.{read, send_error-run_notice}
use lib_rabbit_job_queue.Ends.Answered.{reporting, dispatch-run_notice}
use lib_rabbit_job_queue.Delivery.Acknowledging.{tags, smooth}
use lib_rabbit_job_queue.Ends.{new_queue_config, Connection, send_error, dispatch}
use lib_rabbit_job_queue.Ends.Notices.{
  new_dispatcher, error_notice, success_notice, error_ack, success_ack, Happening, registers_error,
  runs, happen, run_notice,
}
use lib_rabbit_job_queue.Ends.Acked.{happen-acks}
use lib_rabbit_job_queue.Ends.Publishing.{published}
use lib_rabbit_job_queue.Ends.Exhausted.{limited, send_errors, send_errors-published}
use lib_rabbit_job_queue.Ends.Waiting.{declared, dispatch-declared}

abbrev fresh : Connection String
fresh = record { opened = 0; calls = [] }

abbrev half_more : Duration → Duration
half_more (pos n) = pos (n + n / 2)
half_more (negsuc n) = negsuc (n + n / 2)

abbrev minutes : ℕ
minutes = 15 * 60 * 1_000_000_000

-- A handler adds its number to the world, and throws where the sum is above the message.
abbrev adding : Handling ℕ ℕ ℕ
adding h msg s = (ltb msg (s + h), s + h)

abbrev numbers : ℕ → Parsed ℕ
numbers n = if ltb n 100 then parsed n else rejected null_pointer

-- Of three notifications on two channels the third is lost.
send_errors-published_example :
    published (send_errors 2 half_more new_queue_config ("a" ∷ "b" ∷ "c" ∷ []) fresh).calls
    ≡ ("errors", "a") ∷ ("errors", "b") ∷ []
unfolding new_queue_config
send_errors-published_example =
    send_errors-published 2 half_more new_queue_config ("a" ∷ "b" ∷ "c" ∷ []) fresh

dispatch-declared_example :
    (timeout : ℤ) × (declared (dispatch (limited 2) half_more new_queue_config "job" fresh).1.calls
      ≡ ("jobs", some timeout) ∷ [])
    × (pos_part (in_whole_seconds (pos minutes)) * 1000 ≤ pos_part timeout)
unfolding new_queue_config new_executor_config
dispatch-declared_example =
    dispatch-declared (limited 2) half_more new_queue_config minutes (minutes + minutes / 2) "job"
      fresh refl refl (omega arith) refl refl

abbrev day : List (Happening ℕ ℕ ℕ)
day =
    registers_error 3
    ∷ runs (error_notice 1 (some 5) true)
    ∷ runs (success_notice 1 (some 500) true)
    ∷ runs (error_notice 2 none false)
    ∷ runs (error_notice 3 (some 2) true)
    ∷ []

happen-acks_example :
    (happen adding adding numbers numbers day new_dispatcher 0).0
    ≡ error_ack 1 ∷ success_ack 1 ∷ error_ack 3 ∷ []
happen-acks_example = happen-acks adding adding numbers numbers day new_dispatcher 0

abbrev error : ErrorNotification String Tree
error = record { job_id = "0f"; code = pos 500; attempt_count = pos 1; message = none; body = none }

-- Both handlers throw.
abbrev throwing : Handling ℕ (ErrorNotification String Tree) ℕ
throwing h msg s = (true, s + h)

abbrev empty : Connection Fields
empty = record { opened = 0; calls = [] }

send_error-run_notice_example :
    (o : Fields) × (published
        (send_error
          (limited 2)
          half_more
          new_queue_config
          (error_to_json trees plain error)
          empty).1.calls
      ≡ ("errors", o) ∷ [])
    × (run_notice throwing adding
          (error_from_json trees plain)
          (λ o. parsed 5)
          (record { error_handlers = 3 ∷ 4 ∷ []; success_handlers = 1 ∷ [] })
          (error_notice 7 (some (send o)) true)
          0
        ≡ record { threw = true; world = 3; acks = error_ack 7 ∷ [] })
unfolding execute new_queue_config
send_error-run_notice_example =
    send_error-run_notice trees trees_laws plain plain_laws (limited 2) half_more new_queue_config
      throwing adding (λ o. parsed 5) error empty
      (record { error_handlers = 3 ∷ 4 ∷ []; success_handlers = 1 ∷ [] }) 7 0
      (omega arith, omega arith) (omega arith, omega arith) (refl, refl, refl)

abbrev job : JobDispatch String String Tree
job = record {
  job_id = "0f";
  body = some (number (pos 5));
  type = "blast";
  attempt_count = pos 1;
  dispatched = "2024-01-01T00:00Z";
}

abbrev counting : Handling ℕ (JobDispatch String String Tree) ℕ
counting h msg s = (false, s + h)

-- The job fails with the code 3, and both error handlers of the dispatcher throw.
dispatch-run_notice_example :
    (o o' : Fields) × (published
        (dispatch
          (limited 2)
          half_more
          new_queue_config
          (dispatch_to_json trees plain plain job)
          empty).1.calls
      ≡ ("jobs", o) ∷ [])
    × (let r =
          deliver
            (reporting trees plain (limited 2) half_more new_queue_config (some "full"))
            (pos 3 ∷ [])
            (pos minutes)
            7
            smooth
            empty
            (read (dispatch_from_json trees plain plain (send o)))
            empty in
        (r.threw ≡ false) × (tags r.log ≡ 7 ∷ []) × (published r.world.calls ≡ ("errors", o') ∷ []))
    × (run_notice throwing adding
          (error_from_json trees plain)
          (λ o. parsed 5)
          (record { error_handlers = 3 ∷ 4 ∷ []; success_handlers = 1 ∷ [] })
          (error_notice 8 (some (send o')) true)
          0
        ≡ record { threw = true; world = 3; acks = error_ack 8 ∷ [] })
unfolding execute new_queue_config
dispatch-run_notice_example =
    dispatch-run_notice trees trees_laws plain plain_laws plain plain_laws (limited 2) half_more
      new_queue_config throwing adding (λ o. parsed 5) job empty empty (pos 3) (some "full")
      (pos minutes) 7 8 (record { error_handlers = 3 ∷ 4 ∷ []; success_handlers = 1 ∷ [] }) 0
      (omega arith, omega arith) (omega arith, omega arith) (refl, refl, refl) (refl, refl, refl)
