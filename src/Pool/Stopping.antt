-- ===== src/Pool/Stopping.antt =====
-- Stopping a pool: the walk of `stopExecutors`, the codes of `stop` and `stopNow`, and the halt of a
-- pool whose failure checker asks for it.
use lib_rabbit_job_queue.Common.{
  ℕ, zero, suc, ◌+◌, ◌≤◌, ◌≡◌, refl, ap, Bool, true, false, Option, none, List, [], ◌∷◌, arith,
  length,
}
use lib_rabbit_job_queue.Common.Int.{ℤ}
use lib_rabbit_job_queue.Pool.State.{
  Ref, Executor, Event, closed, threads_shutdown, threads_shutdown_now, shutdown_callback,
  awaited_forever, awaited, Pool, ok, Returns, returns, Returns-bind, StopCode, unknown, graceful,
  forced, update, FailureChecker, Readings, Broker, throw, no_reason,
}
use lib_rabbit_job_queue.Pool.Chain.{Chain, IsDistinct, Chain-update}
use lib_rabbit_job_queue.Pool.{
  stop_executor, stop_loop, stop_executors, stop_now, stop, on_consumer_shutdown, halt_pool,
}

-- The log after the executors have been closed in turn.
abbrev pub closes : List Ref → List Event → List Event
closes [] log = log
closes (x ∷ xs) log = closes xs (closed x ∷ log)

-- A walk along `next` from the head meets the executors `xs`; the tail does not matter to it.
pub record Holds {E : Type 0} (p : Pool E) (xs : List Ref) : Type 0 where
  pub chain : Chain p.executors p.head xs
  pub distinct : IsDistinct xs
  pub room : length xs ≤ p.requests

-- The pool has stopped: it is closing, its list is empty, and the log is as given.
pub record Stopped {E : Type 0} (after : List Event) (q : Pool E) : Type 0 where
  pub closing : q.closing ≡ true
  pub head : q.head ≡ none
  pub tail : q.tail ≡ none
  pub log : q.log ≡ after

module _ {E : Type 0} where
  stop_loop-closes :
      (fuel : ℕ) (h : Option Ref) (xs : List Ref) (p : Pool E)
      → Chain p.executors h xs
      → IsDistinct xs
      → length xs ≤ fuel
      → p.closing ≡ true
      → p.head ≡ none
      → p.tail ≡ none
      → Returns (λ _ q. Stopped (closes xs p.log) q) (stop_loop fuel h p)
  unfolding stop_loop stop_executor
  stop_loop-closes fuel h [] p c d f k a b =
      rw (c, stop_loop) (returns (record { closing = k; head = a; tail = b; log = refl }))
  stop_loop-closes zero h (x ∷ xs) p c d f k a b = absurd (omega arith)
  stop_loop-closes (suc fuel) h (x ∷ xs) p c d f k a b =
      let s = p.executors in
      let e : Executor = record (s x) { prev = none } in
      let r = update s x e in
      rw (c.0, stop_loop)
        (stop_loop-closes fuel (s x).next xs _
          (Chain-update r x (record (r x) { next = none }) (s x).next xs d.0
            (Chain-update s x e (s x).next xs d.0 c.1))
          d.1 (omega arith) k a b)

  -- `stopExecutors` on an open pool closes each executor of the list once, in the order of the list,
  -- and leaves an empty list.
  pub stop_executors-closes :
      (p : Pool E) (xs : List Ref)
      → Holds p xs
      → p.closing ≡ false
      → Returns (λ _ q. Stopped (closes xs p.log) q) (stop_executors p)
  unfolding stop_executors
  stop_executors-closes p xs h o = simp o (
      stop_loop-closes (p.requests + 1) p.head xs _ h.chain h.distinct (omega (arith, h.room)) refl
        refl refl)

  -- A second stop asks nothing more of the executors: a pool that is closing is left as it is.
  pub stop_executors-closing : (p : Pool E) → p.closing ≡ true → stop_executors p ≡ ok tt p
  unfolding stop_executors
  stop_executors-closing p c = rw (c, stop_executors)

abbrev pub waited : Bool → List Event → List Event
waited true log = awaited_forever ∷ log
waited false log = log

-- The threads are interrupted, the owner is told, and the caller may wait.
abbrev pub killed : Bool → List Event → List Event
killed block log = waited block (shutdown_callback ∷ threads_shutdown_now ∷ log)

-- What `stop` answers, and what it asks for once the executors are closed.
abbrev pub stop_code : (block terminated in_time : Bool) → StopCode
stop_code false true in_time = graceful
stop_code false false in_time = unknown
stop_code true terminated true = graceful
stop_code true terminated false = forced

abbrev pub stop_log :
    (block : Bool) → ℤ → (block_after_kill in_time : Bool) → List Event → List Event
stop_log false kill_after after in_time log = threads_shutdown ∷ log
stop_log true kill_after after true log = awaited kill_after ∷ threads_shutdown ∷ log
stop_log true kill_after after false log =
    killed after (awaited kill_after ∷ threads_shutdown ∷ log)

relogged :
    {E : Type 0} {log : List Event} {q : Pool E} (f : List Event → List Event)
    → Stopped log q
    → Stopped (f log) (record q { log = f q.log })
relogged f s = record { closing = s.closing; head = s.head; tail = s.tail; log = ap f s.log }

module _ {E : Type 0} (p : Pool E) (xs : List Ref) (h : Holds p xs) (o : p.closing ≡ false) where
  -- `stopNow` on an open pool whose list ends closes each executor of the list once, interrupts
  -- the threads, calls the owner's callback, waits if it is to block, and answers Forced.
  pub stop_now-forced :
      (block : Bool)
      → Returns
          (λ code q. (code ≡ forced) × Stopped (killed block (closes xs p.log)) q)
          (stop_now block p)
  unfolding stop_now
  stop_now-forced true =
      Returns-bind (stop_executors-closes p xs h o)
        λ _ q s. returns (refl, relogged (killed true) s)
  stop_now-forced false =
      Returns-bind (stop_executors-closes p xs h o)
        λ _ q s. returns (refl, relogged (killed false) s)

  -- `stop` on an open pool whose list ends closes each executor of the list once and shuts the
  -- threads down. Without blocking it then returns, Graceful if the threads have ended and
  -- Unknown if not. With blocking it waits: Graceful if they end in time, and if not it kills as
  -- `stopNow` does, waits again if it is to, and answers Forced.
  pub stop_lem :
      (block : Bool) (kill_after : ℤ) (after terminated in_time : Bool)
      → Returns
          (λ code q.
            (code ≡ stop_code block terminated in_time)
            × Stopped (stop_log block kill_after after in_time (closes xs p.log)) q)
          (stop block kill_after after terminated in_time p)
  unfolding stop
  stop_lem false k a true b =
      Returns-bind (stop_executors-closes p xs h o)
        λ _ q s. returns (refl, relogged (stop_log false k a b) s)
  stop_lem false k a false b =
      Returns-bind (stop_executors-closes p xs h o)
        λ _ q s. returns (refl, relogged (stop_log false k a b) s)
  stop_lem true k a t true =
      Returns-bind (stop_executors-closes p xs h o)
        λ _ q s. returns (refl, relogged (stop_log true k a true) s)
  stop_lem true k true t false =
      Returns-bind (stop_executors-closes p xs h o)
        λ _ q s. returns (refl, relogged (stop_log true k true false) s)
  stop_lem true k false t false =
      Returns-bind (stop_executors-closes p xs h o)
        λ _ q s. returns (refl, relogged (stop_log true k false false) s)

module _ {E : Type 0} (broker : Broker) (c : FailureChecker E) (now : Readings) (p : Pool E)
    (x : Ref) (halts : (c.halt now.asked (c.mark now.marked p.checker)).0 ≡ true) where
  abbrev asked_checker : E
  asked_checker = (c.halt now.asked (c.mark now.marked p.checker)).1

  -- An unexpected shutdown after which the checker says to halt, and tells why, stops the pool as
  -- `stopNow` does: every executor of the list is closed, the dead one too, and none is opened.
  pub shutdown_halts :
      (xs : List Ref)
      → Holds p xs
      → p.closing ≡ false
      → (c.tells now.told asked_checker).0 ≡ true
      → Returns
          (λ _ q. Stopped (killed true (closes xs p.log)) q)
          (on_consumer_shutdown broker c now false x p)
  unfolding on_consumer_shutdown halt_pool
  shutdown_halts xs h o t =
      rw (halts, on_consumer_shutdown, t)
        (Returns-bind
          (stop_now-forced (record p { checker = (c.tells now.told asked_checker).1 }) xs
            (record { chain = h.chain; distinct = h.distinct; room = h.room }) o true)
          λ _ q (_, s). returns s)

  -- If the checker says to halt but throws when it is asked why, the callback throws and the pool is as
  -- it was, but for the checker.
  pub unexplained :
      (c.tells now.told asked_checker).0 ≡ false
      → on_consumer_shutdown broker c now false x p
        ≡ throw no_reason (record p { checker = (c.tells now.told asked_checker).1 })
  unfolding on_consumer_shutdown halt_pool
  unexplained t = rw (halts, on_consumer_shutdown, t)
