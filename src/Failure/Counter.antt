-- ===== src/Failure/Counter.antt =====
-- utils/ScrollingCounter.kt: a count of the failures of the last milliseconds. The reading of
-- `System.currentTimeMillis()` that a call makes is its argument `now`.
pub mod Window
pub mod Refinement
use lib_rabbit_job_queue.Common.{
  ℕ, ◌%◌, List, [], ◌∷◌, ◌++◌, Bool, true, false, length, if◌then◌else◌, ltb, ◌==◌,
}
use lib_rabbit_job_queue.Common.Int.{ℤ, ltb_ℤ, ◌-ℤ◌, wrap_long, uint_mod, to_uint}
use lib_rabbit_job_queue.Common.Duration.{Duration, in_whole_milliseconds}

pub record ScrollingCounter : Type 0 where
  pub entries : List ℤ
  pub max_delta : ℤ

unfoldable pub new_counter : Duration → ScrollingCounter
new_counter window = record { entries = []; max_delta = in_whole_milliseconds window }

unfoldable pub inc : ℤ → ScrollingCounter → ScrollingCounter
inc now c = record c { entries = c.entries ++ now ∷ [] }

-- The loop of `count`: pop while the first entry is before the cutoff.
unfoldable pub prune : ℤ → List ℤ → List ℤ
prune cutoff [] = []
prune cutoff (first ∷ rest) = if ltb_ℤ first cutoff then prune cutoff rest else first ∷ rest

unfoldable pub cutoff_at : ℤ → ScrollingCounter → ℤ
cutoff_at now c = wrap_long (now -ℤ c.max_delta)

unfoldable pub count : ℤ → ScrollingCounter → ℕ × ScrollingCounter
count now c =
    let left = prune (cutoff_at now c) c.entries in
    (length left % uint_mod, record c { entries = left })

-- `counter > value` for a `UInt`: `compareTo(value) > 0`.
unfoldable pub exceeds : ℤ → ℕ → ScrollingCounter → Bool × ScrollingCounter
exceeds now value c = let (n, c') = count now c in (ltb value n, c')

-- `counter > value` for an `Int`.
pub exceeds_int : ℤ → ℤ → ScrollingCounter → Bool × ScrollingCounter
exceeds_int now value c = exceeds now (to_uint value) c

-- What a counter is compared with; `itself` is the same object.
pub data Operand : Type 0 where
  int : ℤ → Operand
  uint : ℕ → Operand
  itself anything_else : Operand
  counter : ScrollingCounter → Operand

-- `equals`, which prunes the counters that it counts. The other counter reads the clock at `later`, and
-- `uint_is_int` is Kotlin's `==` of a `UInt` and an `Int` that are seen as objects.
pub equals :
    (uint_is_int : ℕ → ℤ → Bool)
    → ℤ
    → ℤ
    → Operand
    → ScrollingCounter
    → Bool × ScrollingCounter × Operand
equals uint_is_int now later (int value) c =
    let (n, c') = count now c in (uint_is_int n value, c', int value)
equals uint_is_int now later (uint value) c =
    let (n, c') = count now c in (n == value, c', uint value)
equals uint_is_int now later itself c = (true, c, itself)
equals uint_is_int now later (counter d) c =
    let (n, c') = count now c in let (k, d') = count later d in (n == k, c', counter d')
equals uint_is_int now later anything_else c = (false, c, anything_else)
