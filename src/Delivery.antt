-- ===== src/Delivery.antt =====
-- pools/JobHandlers.kt, ErrorHandlers.kt, SuccessHandlers.kt and the delivery callback of
-- pools/exec/Executor.kt: what happens to one message of the job queue.
pub mod Handlers
pub mod Acknowledging
mod Tests
use lib_rabbit_job_queue.Common.{
  ℕ, Bool, true, false, not, Option, none, some, List, [], ◌∷◌, ◌++◌, if◌then◌else◌,
}
use lib_rabbit_job_queue.Common.Int.{ℤ}
use lib_rabbit_job_queue.Common.Duration.{Duration, in_whole_seconds}
use lib_rabbit_job_queue.Delivery.Handlers.{Handling, execute}

-- What the callback asks of the thread pool, of the future, of the channel and of `timeoutFn`, in
-- order, where the call returns.
pub data Event : Type 0 where
  submitted : Event
  awaited : ℤ → Event
  acknowledged : ℕ → Event
  cancelled timeout_reported : Event

-- The answers that the callback gets for one message: whether the channel is open, whether the thread
-- pool takes the job, whether the job ends before the timeout, and whether `cancel`, `basicAck` and
-- `timeoutFn` return.
pub record Answers : Type 0 where
  pub is_open : Bool
  pub accepts : Bool
  pub in_time : Bool
  pub cancels : Bool
  pub acks : Bool
  pub reports : Bool

-- What a delivery leaves: whether it threw, the world of the handlers, and the calls it made.
pub record Delivered (S : Type 0) : Type 0 where
  pub threw : Bool
  pub world : S
  pub log : List Event

-- `swallow { … }`.
abbrev pub swallow : Bool → Event → List Event
swallow returns e = if returns then e ∷ [] else []

-- The end of the `try` where the future has an answer: an exception of the job comes out of `get`.
abbrev pub acknowledge : {S : Type 0} → ℕ → Bool → List Event → Bool × S → Delivered S
acknowledge tag acks log (true, s) = record { threw = true; world = s; log = log }
acknowledge tag acks log (false, s) = record {
  threw = not acks;
  world = s;
  log = log ++ swallow acks (acknowledged tag);
}

-- The branch of the TimeoutException, where `s` is the world that the cancelled job leaves.
pub kill : {S : Type 0} → ℕ → Answers → List Event → S → Delivered S
kill tag a log s = record {
  threw = false;
  world = s;
  log =
      log
      ++ swallow a.cancels cancelled
      ++ swallow a.acks (acknowledged tag)
      ++ swallow a.reports timeout_reported;
}

module _ {H T S : Type 0} (handle : Handling H T S) (handlers : List H)
    (job_timeout : Duration) where
  abbrev pub submit : ℕ → Answers → S → Bool → T → S → Delivered S
  submit tag a killed false dispatch s = record { threw = true; world = s; log = [] }
  submit tag a killed true dispatch s =
      let log = submitted ∷ awaited (in_whole_seconds job_timeout) ∷ [] in
      if a.in_time
      then acknowledge tag a.acks log (execute handle handlers dispatch s)
      else kill tag a log killed

  -- The job that `fromJson` reads from the message, or nothing where it throws.
  abbrev pub parsed : ℕ → Answers → S → Option T → S → Delivered S
  parsed tag a killed none s = record { threw = true; world = s; log = [] }
  parsed tag a killed (some dispatch) s = submit tag a killed a.accepts dispatch s

  -- The callback on the message with a delivery tag.
  pub deliver : ℕ → Answers → S → Option T → S → Delivered S
  unfolding kill
  deliver tag a killed message s =
      if a.is_open
      then parsed tag a killed message s
      else record { threw = false; world = s; log = [] }
