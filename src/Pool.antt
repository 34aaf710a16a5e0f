-- ===== src/Pool.antt =====
-- pools/exec/JobQueueExecutorPool.kt: the operations of the pool of executors, which are kept in a
-- linked list of objects. The list's `prev` and `next` are fields of Executor.kt.
pub mod State
pub mod Chain
pub mod Started
pub mod Removing
pub mod Replacing
pub mod Losing
pub mod Stopping
pub mod Leaking
pub mod Attempting
pub mod Checking
pub mod Sound
pub mod Runs
mod Tests
use lib_rabbit_job_queue.Common.{
  ℕ, zero, suc, ◌+◌, ◌%◌, Bool, true, false, not, ◌||◌, Option, none, some, [], ◌∷◌, String,
  if◌then◌else◌,
}
use lib_rabbit_job_queue.Common.Int.{ℤ, pos, ltb_ℤ, uint_mod, pos_part}
use State.{
  Ref, Executor, Event, opened, consuming, closed, threads_shutdown, threads_shutdown_now,
  shutdown_callback, awaited_forever, awaited, null_pointer, channel_failed, consume_failed,
  no_reason, FailureChecker, Readings, Broker, Pool, ok, throw, out_of_fuel, Act, and_then, ◌>>=◌,
  ◌>>◌, done, emit, same, update, set_next, set_prev, no_executor, StopCode, unknown, graceful,
  forced,
}

module _ {E : Type 0} where
  -- `add`. The call `tail!!.next = ex` throws where there is no tail.
  abbrev pub append_to : Option Ref → Ref → Act E (Unit {0})
  append_to none x p = throw null_pointer p
  append_to (some t) x p = ok tt (record (set_next (some t) (some x) p) { tail = some x })

  abbrev pub add_behind : Option Ref → Ref → Act E (Unit {0})
  add_behind none x p = ok tt (record p { head = some x; tail = some x })
  add_behind (some h) x p = append_to p.tail x p

  pub add : Ref → Act E (Unit {0})
  add x p = add_behind p.head x p

  -- `remove`, whose fields are read in the order of the source.
  remove_head : Option Ref → Pool E → Pool E
  remove_head next p = set_prev next none (record p { head = next })

  remove_tail : Option Ref → Pool E → Pool E
  remove_tail prev p = set_next prev none (record p { tail = prev })

  remove_inner : Ref → Pool E → Pool E
  remove_inner x p =
      let p' = set_prev (p.executors x).next (p.executors x).prev p in
      set_next (p'.executors x).prev (p'.executors x).next p'

  pub remove : Ref → Pool E → Pool E
  unfolding remove_head remove_tail remove_inner
  remove x p =
      if same p.head x
      then remove_head (p.executors x).next p
      else if same p.tail x
      then remove_tail (p.executors x).prev p
      else remove_inner x p

  -- `Executor.stop`: the exceptions of `channel.close()` are dropped.
  pub stop_executor : Ref → Act E (Unit {0})
  stop_executor x = emit (closed x)

  -- The loop of `stopExecutors`; `next` is its variable.
  pub stop_loop : ℕ → Option Ref → Act E (Unit {0})
  stop_loop fuel none p = ok tt p
  stop_loop zero (some x) p = out_of_fuel
  stop_loop (suc fuel) (some x) p =
      let p' = set_next (some x) none (set_prev (some x) none p) in
      and_then (stop_executor x p') (λ _. stop_loop fuel (p.executors x).next)

  -- Each round leaves its executor without a successor, so there are no more rounds than executors
  -- ever made, and one.
  pub stop_executors : Act E (Unit {0})
  unfolding stop_loop stop_executor
  stop_executors p =
      if p.closing
      then ok tt p
      else stop_loop (p.requests + 1) p.head (record p { closing = true; head = none; tail = none })

module _ {E : Type 0} where
  -- `silently(config.shutdownCB)`: what the callback throws is dropped.
  pub stop_now : (block : Bool) → Act E StopCode
  unfolding stop_executors
  stop_now block = do
    stop_executors
    emit threads_shutdown_now
    emit shutdown_callback
    if block then emit awaited_forever else done
    λ p. ok forced p

  -- `terminated` and `in_time` are the answers of `threads.isTerminated` and of the first
  -- `awaitTermination`.
  pub stop :
      (block : Bool) (kill_after : ℤ) (block_after_kill terminated in_time : Bool) → Act E StopCode
  unfolding stop_executors
  stop block kill_after block_after_kill terminated in_time = do
    stop_executors
    emit threads_shutdown
    if not block then (λ p. ok (if terminated then graceful else unknown) p) else do
      emit (awaited kill_after)
      if in_time then (λ p. ok graceful p) else do
        emit threads_shutdown_now
        emit shutdown_callback
        if block_after_kill then emit awaited_forever else done
        λ p. ok forced p

module _ {E : Type 0} (broker : Broker) where
  -- The arguments of the new executor are evaluated in order: its name, then its channel.
  pub create_new : Act E Ref
  create_new p =
      let number = (p.counter + 1) % uint_mod in
      let x = p.requests in
      let e : Executor = record {
        id = record { queue = p.queue_name; number = number };
        prev = none;
        next = none;
      } in
      let p' = record p { counter = number; requests = x + 1 } in
      if broker.opens x
      then ok x (record p' { executors = update p.executors x e; log = opened x ∷ p.log })
      else throw channel_failed p'

  pub init : Ref → Act E (Unit {0})
  init x p = if broker.consumes x then emit (consuming x) p else throw consume_failed p

  -- `add(createNew().also { it.init(…) })`.
  pub add_new : Act E (Unit {0})
  unfolding create_new init add
  add_new = do x ← create_new; init x; add x

  pub start_loop : ℕ → Act E (Unit {0})
  unfolding add_new
  start_loop zero p = ok tt p
  start_loop (suc n) p = and_then (add_new p) (λ _. start_loop n)

  -- `start`: once for each i in 0 ..< poolSize.
  pub start : Act E (Unit {0})
  unfolding start_loop
  start p = start_loop (pos_part p.pool_size) p

  module _ (c : FailureChecker E) where
    open c use {mark, halt, tells}

    replace : Ref → Act E (Unit {0})
    replace x p =
        and_then (stop_executor x (remove x p)) (λ _ q. if q.closing then ok tt q else add_new q)

    halt_pool : ℤ → Act E (Unit {0})
    halt_pool now p =
        let (told, checker) = tells now p.checker in
        let q = record p { checker = checker } in
        if told then and_then (stop_now true q) (λ _. done) else throw no_reason q

    -- The callback of `onConsumerShutdown(ex)`, with its readings `t` of the clock.
    pub on_consumer_shutdown : Readings → (initiated_by_application : Bool) → Ref → Act E (Unit {0})
    on_consumer_shutdown t true x p = replace x p
    on_consumer_shutdown t false x p =
        let (halted, checker) = halt t.asked (mark t.marked p.checker) in
        let q = record p { checker = checker } in if halted then halt_pool t.told q else replace x q

-- The constructor, with the check of its `init` block.
pub new_pool : {E : Type 0} → ℤ → String → E → Option (Pool E)
new_pool size queue checker =
    if ltb_ℤ size (pos 1) || ltb_ℤ (pos 64) size
    then none
    else some (record {
      pool_size = size;
      queue_name = queue;
      checker = checker;
      closing = false;
      head = none;
      tail = none;
      counter = 0;
      executors = λ _. no_executor;
      requests = 0;
      log = [];
    })
