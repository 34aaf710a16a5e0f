-- ===== src/Ends/Notices.antt =====
-- JobQueueDispatcher.kt: its handlers, and what its workers do with a notification.
use lib_rabbit_job_queue.Common.{
  Bool, true, not, ◌||◌, Option, none, some, List, [], ◌∷◌, ◌++◌, ℕ, if◌then◌else◌,
}
use lib_rabbit_job_queue.Messages.{Parsed, parsed, rejected}
use lib_rabbit_job_queue.Delivery.Handlers.{Handling, register, execute}

-- The handlers of a dispatcher, where E and F are those of error and of success notifications.
pub record Dispatcher (E F : Type 0) : Type 0 where
  pub error_handlers : List E
  pub success_handlers : List F

pub new_dispatcher : {E F : Type 0} → Dispatcher E F
new_dispatcher = record { error_handlers = []; success_handlers = [] }

pub on_error : {E F : Type 0} → E → Dispatcher E F → Dispatcher E F
on_error h d = record d { error_handlers = register h d.error_handlers }

pub on_success : {E F : Type 0} → F → Dispatcher E F → Dispatcher E F
on_success h d = record d { success_handlers = register h d.success_handlers }

-- A message on one of the two channels of the dispatcher: its delivery tag, the object that
-- `Json.from` reads from it, if it does not throw, and whether `basicAck` returns.
pub data Notice (Object : Type 0) : Type 0 where
  error_notice success_notice : (tag : ℕ) → (body : Option Object) → (acks : Bool) → Notice Object

pub data Ack : Type 0 where
  error_ack success_ack : ℕ → Ack

-- What a worker's run leaves: whether it threw, the world of the handlers, and what it acknowledged.
pub record Noticed (S : Type 0) : Type 0 where
  pub threw : Bool
  pub world : S
  pub acks : List Ack

-- What happens at a dispatcher: handlers are registered, and workers run.
pub data Happening (Object E F : Type 0) : Type 0 where
  registers_error : E → Happening Object E F
  registers_success : F → Happening Object E F
  runs : Notice Object → Happening Object E F

module _ {S : Type 0} where
  -- `try { … } finally { basicAck(…) }`.
  abbrev pub finally_ack : Ack → Bool → Bool × S → Noticed S
  finally_ack ack acks (threw, s) = record {
    threw = threw || not acks;
    world = s;
    acks = if acks then ack ∷ [] else [];
  }

  abbrev pub execute_parsed : {H T : Type 0} → Handling H T S → List H → Parsed T → S → Bool × S
  execute_parsed handle handlers (parsed msg) s = execute handle handlers msg s
  execute_parsed handle handlers (rejected why) s = (true, s)

  abbrev pub read_and_execute :
      {H T Object : Type 0}
      → Handling H T S
      → List H
      → (Object → Parsed T)
      → Option Object
      → S
      → Bool × S
  read_and_execute handle handlers from_json none s = (true, s)
  read_and_execute handle handlers from_json (some o) s =
      execute_parsed handle handlers (from_json o) s

module _ {Object E F S T U : Type 0} (handle_error : Handling E T S)
    (handle_success : Handling F U S) (error_from : Object → Parsed T)
    (success_from : Object → Parsed U) where
  -- The body of `workers.execute` in the two delivery callbacks.
  unfoldable pub run_notice : Dispatcher E F → Notice Object → S → Noticed S
  run_notice d (error_notice tag body acks) s =
      finally_ack (error_ack tag) acks
        (read_and_execute handle_error d.error_handlers error_from body s)
  run_notice d (success_notice tag body acks) s =
      finally_ack (success_ack tag) acks
        (read_and_execute handle_success d.success_handlers success_from body s)

  -- The acknowledgements of all of it, oldest first, and the world. An exception ends the worker's run
  -- only.
  unfoldable pub happen : List (Happening Object E F) → Dispatcher E F → S → List Ack × S
  happen [] d s = ([], s)
  happen (registers_error h ∷ hs) d s = happen hs (on_error h d) s
  happen (registers_success h ∷ hs) d s = happen hs (on_success h d) s
  happen (runs n ∷ hs) d s =
      let r = run_notice d n s in let (acks, t) = happen hs d r.world in (r.acks ++ acks, t)
