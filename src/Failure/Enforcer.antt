-- ===== src/Failure/Enforcer.antt =====
-- config/ExecutorFailurePolicy.kt, MaxFailureEnforcer.kt, WindowedFailureEnforcer.kt,
-- AnyFailureEnforcer.kt and ExecutorConfig.getOrCreateFailureEnforcer: the policies of the companion
-- object, the enforcers that they create, and the three methods of an enforcer. The reading of the
-- clock that a call makes is its argument `now`; within one call the clock stands still.
pub mod Refinement
pub mod Reasons
pub mod Default
mod Tests
use lib_rabbit_job_queue.Common.{
  ℕ, zero, suc, ◌+◌, ◌*◌, ◌%◌, Bool, true, false, Option, none, some, ltb, if◌then◌else◌,
}
use lib_rabbit_job_queue.Common.Int.{ℤ, pos, ◌+ℤ◌, to_uint, wrap_int, uint_mod}
use lib_rabbit_job_queue.Common.Duration.{Duration, nanos_per_second}
use lib_rabbit_job_queue.Failure.Counter.{ScrollingCounter, new_counter, inc, exceeds}

mutual
  pub data Policy : Type 0 where
    max_failures_within : ℤ → Duration → Policy
    max_total_failures : ℤ → Policy
    of_any : Policies → Policy

  pub data Policies : Type 0 where
    end : Policies
    more : Policy → Policies → Policies

mutual
  pub data Enforcer : Type 0 where
    max : (max_failures failure_count : ℕ) → Enforcer
    windowed : (max_failures : ℕ) (within : Duration) (counter : ScrollingCounter) → Enforcer
    any : Enforcers → Enforcer

  pub data Enforcers : Type 0 where
    nil : Enforcers
    cons : Enforcer → Enforcers → Enforcers

unfoldable mutual
  pub new_enforcer : Policy → Enforcer
  new_enforcer (max_failures_within m within) = windowed (to_uint m) within (new_counter within)
  new_enforcer (max_total_failures m) = max (to_uint m) 0
  new_enforcer (of_any others) = any (new_enforcers others)

  pub new_enforcers : Policies → Enforcers
  new_enforcers end = nil
  new_enforcers (more p ps) = cons (new_enforcer p) (new_enforcers ps)

unfoldable mutual
  pub mark_failure : ℤ → Enforcer → Enforcer
  mark_failure now (max m n) = max m ((n + 1) % uint_mod)
  mark_failure now (windowed m within c) = windowed m within (inc now c)
  mark_failure now (any es) = any (mark_failures now es)

  pub mark_failures : ℤ → Enforcers → Enforcers
  mark_failures now nil = nil
  mark_failures now (cons e es) = cons (mark_failure now e) (mark_failures now es)

-- A test prunes the counters that it reads, so it returns the enforcer too.
windowed_halt : ℕ → Duration → Bool × ScrollingCounter → Bool × Enforcer
windowed_halt m within (b, c) = (b, windowed m within c)

-- `enforcers.any(shouldHalt)` asks no enforcer behind the first that says yes.
abbrev any_halt : Bool × Enforcer → Enforcers → Bool × Enforcers → Bool × Enforcers
any_halt (true, e) es rest = (true, cons e es)
any_halt (false, e) es (b, es') = (b, cons e es')

unfoldable mutual
  unfolding windowed_halt

  pub should_halt : ℤ → Enforcer → Bool × Enforcer
  should_halt now (max m n) = (ltb m n, max m n)
  should_halt now (windowed m within c) = windowed_halt m within (exceeds now m c)
  should_halt now (any es) = let (b, es') = should_halt_any now es in (b, any es')

  pub should_halt_any : ℤ → Enforcers → Bool × Enforcers
  should_halt_any now nil = (false, nil)
  should_halt_any now (cons e es) = any_halt (should_halt now e) es (should_halt_any now es)

-- The two texts of `reason()`, with the values that they show.
pub data Reason : Type 0 where
  exceeded_total : ℕ → Reason
  exceeded_within : ℕ → Duration → Reason

pub data Told : Type 0 where
  told : Reason → Told
  no_such_element : Told
  out_of_fuel : Told

-- `enforcers.first(shouldHalt).reason()`, where `tell` is the call of `reason` on the one found. It asks
-- `shouldHalt` of each enforcer up to that one, so it returns the enforcers too.
pub first_reason : ℤ → (Enforcer → Told × Enforcer) → Enforcers → Told × Enforcers
first_reason now tell nil = (no_such_element, nil)
first_reason now tell (cons e es) =
    let (b, e') = should_halt now e in
    let rest = first_reason now tell es in
    if b then ((tell e').0, cons (tell e').1 es) else (rest.0, cons e' rest.1)

-- An enforcer is asked again before it tells its reason, so the recursion is on fuel, which counts
-- the levels of nested policies.
pub reason_fuel : ℕ → ℤ → Enforcer → Told × Enforcer
reason_fuel fuel now (max m n) = (told (exceeded_total m), max m n)
reason_fuel fuel now (windowed m within c) = (told (exceeded_within m within), windowed m within c)
reason_fuel zero now (any es) = (out_of_fuel, any es)
reason_fuel (suc fuel) now (any es) =
    let (t, es') = first_reason now (reason_fuel fuel now) es in (t, any es')

mutual
  pub depth : Enforcer → ℕ
  depth (max m n) = 0
  depth (windowed m within c) = 0
  depth (any es) = suc (depth_all es)

  pub depth_all : Enforcers → ℕ
  depth_all nil = 0
  depth_all (cons e es) = depth e + depth_all es

pub reason : ℤ → Enforcer → Told × Enforcer
reason now e = reason_fuel (depth e) now e

-- `failurePolicy?.newEnforcer() ?: WindowedFailureEnforcer((workers * 2).toUInt(), 2.seconds)`.
pub get_or_create_failure_enforcer : Option Policy → ℤ → Enforcer
get_or_create_failure_enforcer (some p) workers = new_enforcer p
get_or_create_failure_enforcer none workers =
    let within : Duration = pos (2 * nanos_per_second) in
    windowed (to_uint (wrap_int (workers +ℤ workers))) within (new_counter within)
