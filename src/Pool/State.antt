-- ===== src/Pool/State.antt =====
-- pools/exec/JobQueueExecutorPool.kt and Executor.kt: the fields of the pool and of its executors,
-- the store that holds them, the calls that leave the pool, and runs that may throw.
use lib_rabbit_job_queue.Common.{
  ℕ, Bool, false, Option, none, some, List, ◌∷◌, String, ◌==◌, if◌then◌else◌,
}
use lib_rabbit_job_queue.Common.Int.{ℤ}

abbrev pub Ref : Type 0
Ref = ℕ

-- `id` is the text "<queue>-consumer-pool-<number>".
pub record ExecutorId : Type 0 where
  pub queue : String
  pub number : ℕ

pub record Executor : Type 0 where
  pub id : ExecutorId
  pub prev : Option Ref
  pub next : Option Ref

-- `a === b` on references that may be null.
abbrev pub same : Option Ref → Ref → Bool
same none x = false
same (some y) x = y == x

abbrev pub update : (Ref → Executor) → Ref → Executor → Ref → Executor
update s x e y = if y == x then e else s y

-- What the pool asks of the broker, of its threads and of its owner, in the order of the calls.
pub data Event : Type 0 where
  opened consuming closed : Ref → Event
  threads_shutdown threads_shutdown_now shutdown_callback awaited_forever : Event
  awaited : ℤ → Event

pub data Exception : Type 0 where
  illegal_argument null_pointer channel_failed consume_failed no_reason : Exception

-- An enforcer as the pool sees it: the interface ExecutorFailureEnforcer, with its state `E`.
-- `tells` is the call of `reason()`, which may change the state too, and is false where that throws.
pub record FailureChecker (E : Type 0) : Type 0 where
  pub mark : ℤ → E → E
  pub halt : ℤ → E → Bool × E
  pub tells : ℤ → E → Bool × E

-- The readings of the clock in one callback: when the failure is marked, when `shouldHalt` is asked
-- and when `reason` is.
pub record Readings : Type 0 where
  pub marked : ℤ
  pub asked : ℤ
  pub told : ℤ

-- The answers of the broker: whether the call of `channelProvider` for an executor gives a channel,
-- and whether `basicConsume` on it succeeds.
pub record Broker : Type 0 where
  pub opens : Ref → Bool
  pub consumes : Ref → Bool

-- `requests` counts the calls of `channelProvider`, and gives the next executor its reference. The
-- log has the last event first.
pub record Pool (E : Type 0) : Type 0 where
  pub pool_size : ℤ
  pub queue_name : String
  pub checker : E
  pub closing : Bool
  pub head : Option Ref
  pub tail : Option Ref
  pub counter : ℕ
  pub executors : Ref → Executor
  pub requests : ℕ
  pub log : List Event

-- What an operation leaves: its result and the pool, or an exception and the pool as it was then.
pub data Run (E A : Type 0) : Type 0 where
  ok : A → Pool E → Run E A
  throw : Exception → Pool E → Run E A
  out_of_fuel : Run E A

abbrev pub Act : Type 0 → Type 0 → Type 0
Act E A = Pool E → Run E A

module _ {E : Type 0} where
  abbrev pub and_then : {A B : Type 0} → Run E A → (A → Act E B) → Run E B
  and_then (ok a p) k = k a p
  and_then (throw x p) k = throw x p
  and_then out_of_fuel k = out_of_fuel

  infixl 5 ◌>>=◌ ◌>>◌
  abbrev pub ◌>>=◌ : {A B : Type 0} → Act E A → (A → Act E B) → Act E B
  m >>= k = λ p. and_then (m p) k

  abbrev pub ◌>>◌ : {A B : Type 0} → Act E A → Act E B → Act E B
  m >> n = m >>= λ _. n

  abbrev pub done : Act E (Unit {0})
  done p = ok tt p

  abbrev pub emit : Event → Act E (Unit {0})
  emit e p = ok tt (record p { log = e ∷ p.log })

  abbrev pub set_next : Option Ref → Option Ref → Pool E → Pool E
  set_next none v p = p
  set_next (some x) v p = record p {
    executors = update p.executors x (record (p.executors x) { next = v });
  }

  abbrev pub set_prev : Option Ref → Option Ref → Pool E → Pool E
  set_prev none v p = p
  set_prev (some x) v p = record p {
    executors = update p.executors x (record (p.executors x) { prev = v });
  }

abbrev pub no_executor : Executor
no_executor = record { id = record { queue = ""; number = 0 }; prev = none; next = none }

-- The value class `StopCode`.
pub data StopCode : Type 0 where
  unknown graceful forced : StopCode

-- A run that returns, neither throwing nor out of fuel, and leaves what `P` says.
pub data Returns {E A : Type 0} (P : A → Pool E → Type 0) : Run E A → Type 0 where
  returns : {a : A} {p : Pool E} → P a p → Returns P (ok a p)

module _ {E A : Type 0} {P : A → Pool E → Type 0} where
  pub Returns-bind :
      {B : Type 0} {Q : B → Pool E → Type 0} {r : Run E A} {k : A → Act E B}
      → Returns P r
      → ((a : A) (p : Pool E) → P a p → Returns Q (k a p))
      → Returns Q (and_then r k)
  Returns-bind (returns h) next = next _ _ h

  pub Returns-mono :
      {Q : A → Pool E → Type 0} {r : Run E A}
      → Returns P r
      → ((a : A) (p : Pool E) → P a p → Q a p)
      → Returns Q r
  Returns-mono (returns h) weaken = returns (weaken _ _ h)

-- A run that throws the exception, and leaves what `P` says.
pub data Throws {E A : Type 0} (e : Exception) (P : Pool E → Type 0) : Run E A → Type 0 where
  throws : {p : Pool E} → P p → Throws e P (throw e p)
