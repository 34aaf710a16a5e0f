-- ===== src/Pool/Runs/Counting.antt =====
-- What is counted of the operations on a pool, and how far a policy that allows a number of failures has
-- got with them.
use lib_rabbit_job_queue.Common.{
  ℕ, ◌+◌, ◌<◌, ◌≤◌, ◌%◌, length, ltb, ◌≡◌, refl, ap, ◌∙◌, subst, true, false, some, List, [], ◌∷◌,
  arith, Bool-cases, inl, inr, ◌⊎◌,
}
use lib_rabbit_job_queue.Common.Int.{uint_mod}
use lib_rabbit_job_queue.Failure.Enforcer.{Enforcer, max, mark_failure, should_halt}
use lib_rabbit_job_queue.Pool.State.{Ref, Readings, Broker, Pool, Run}
use lib_rabbit_job_queue.Pool.Checking.{library_checker, is_told}
use lib_rabbit_job_queue.Pool.Sound.{IsSound, openings, Falls-length}
use lib_rabbit_job_queue.Pool.Runs.{
  Operation, shuts_down, stops, stops_now, left_by, perform, or_stuck, perform_all,
}
use lib_rabbit_job_queue.Failure.Enforcer.Reasons.{reason-told}
use lib_rabbit_job_queue.Pool.Sound.Replaced.{halts-Keeps}
use lib_rabbit_job_queue.Pool.Runs.Sound.{left, perform-Grows}
use lib_rabbit_job_queue.Pool.Runs.Closed.{perform-StaysClosed}
use lib_rabbit_job_queue.Pool.Runs.Checker.{
  Closes, Checks-left, asked-Checks, goes_on-Checks, halts-Closes, stop-Closes, stop_now-Closes,
  Closes-left,
}
use lib_rabbit_job_queue.Pool.Sound.Ended.{Keeps}
use lib_rabbit_job_queue.Pool.{stop, stop_now, on_consumer_shutdown}

-- The unexpected shutdowns among the operations, and those that the application asked for.
abbrev pub failures_in : Operation → ℕ
failures_in (shuts_down t false x) = 1
failures_in _ = 0

abbrev pub failures : List Operation → ℕ
failures [] = 0
failures (o ∷ os) = failures_in o + failures os

abbrev pub asked_in : Operation → ℕ
asked_in (shuts_down t true x) = 1
asked_in _ = 0

abbrev pub asked : List Operation → ℕ
asked [] = 0
asked (o ∷ os) = asked_in o + asked os

-- The answers of the enforcer that counts failures.
marks :
    (t : Readings) (m n : ℕ)
    → n + 1 < uint_mod
    → library_checker.halt t.asked (library_checker.mark t.marked (max m n))
      ≡ (ltb m (n + 1), max m (n + 1))
unfolding mark_failure should_halt
marks t m n h =
    let e : (n + 1) % uint_mod ≡ n + 1 = omega (arith, h) in ap (λ k. (ltb m k, max m k)) e

tells :
    (t : Readings) (m n : ℕ) → ltb m n ≡ true → (library_checker.tells t.told (max m n)).0 ≡ true
unfolding should_halt
tells t m n h = let (r, e) = reason-told t.told (max m n) h in ap is_told e

-- The pool is open and has counted each failure, or it is closing. So far `a` shutdowns were asked for, and
-- `f` were not.
pub data Stage (m base a f : ℕ) (p : Pool Enforcer) : Type 0 where
  counting : f ≤ m → p.checker ≡ max m f → p.requests ≤ base + a + f → Stage m base a f p
  over : p.closing ≡ true → length (openings p.log) ≤ base + a + m → Stage m base a f p

module _ (broker : Broker) (m base : ℕ) (small : m + 1 < uint_mod) where
  Staged : ℕ → ℕ → Operation → Pool Enforcer → Type 0
  Staged a f o p =
      (q : Pool Enforcer) × (perform broker library_checker o p ≡ some q)
      × IsSound q
      × Stage m base (a + asked_in o) (f + failures_in o) q

  closing-Staged :
      (a f : ℕ) (o : Operation) (p : Pool Enforcer)
      → IsSound p
      → p.closing ≡ true
      → length (openings p.log) ≤ base + a + m
      → Staged a f o p
  unfolding Staged
  closing-Staged a f o p s c few =
      let (q, e, k) = perform-StaysClosed broker library_checker o p c in
      let (r, d, (sound, _)) = perform-Grows broker library_checker o p s in
      let same : r ≡ q = ground (arith, d, e) in
      (q, e, subst IsSound same sound, over k.closing (omega (arith, few, ap length k.openings)))

  -- A pool that is closing now, and has asked for no channel.
  halted :
      (a b f g : ℕ) (p q : Pool Enforcer)
      → IsSound q
      → q.requests ≤ p.requests
      → p.requests ≤ base + a + f
      → f ≤ m
      → q.closing ≡ true
      → Stage m base (a + b) g q
  halted a b f g p q (xs, s) same few low c =
      over c (omega (arith, Falls-length q.requests (openings q.log) s.opened_once, same, few, low))

  stopped :
      {A : Type 0} (a f : ℕ) (r : Run Enforcer A) (p q : Pool Enforcer)
      → Closes r
      → left_by r ≡ some q
      → IsSound q
      → q.requests ≤ p.requests + 0
      → p.requests ≤ base + a + f
      → f ≤ m
      → Stage m base (a + 0) (f + 0) q
  stopped a f r p q closes e s same few low =
      halted a 0 f (f + 0) p q s (omega (arith, same)) few low (Closes-left r q closes e)

  unexpected :
      (a f : ℕ) (t : Readings) (x : Ref) (p : Pool Enforcer)
      → IsSound p
      → f ≤ m
      → p.checker ≡ max m f
      → p.requests ≤ base + a + f
      → Staged a f (shuts_down t false x) p
  unfolding Staged
  unexpected a f t x p s low k few =
      let e : library_checker.halt t.asked (library_checker.mark t.marked p.checker)
          ≡ (ltb m (f + 1), max m (f + 1)) =
        ap (λ c. library_checker.halt t.asked (library_checker.mark t.marked c)) k
        ∙ marks t m f (omega (arith, low, small)) in
      elim (Bool-cases (ltb m (f + 1))) [
        | inl y ↦
            let h = e ∙ ap (λ b. (b, max m (f + 1))) y in
            let (q, d, (sound, same)) =
              left (Keeps p) (on_consumer_shutdown broker library_checker t false x p)
                (halts-Keeps broker library_checker t x p (max m (f + 1)) h s) in
            let c =
              Closes-left (on_consumer_shutdown broker library_checker t false x p) q
                (halts-Closes broker library_checker t x p (max m (f + 1)) h (tells t m (f + 1) y))
                d in
            (q, d, sound, halted a 0 f (f + 1) p q sound (omega (arith, same)) few low c)
        | inr n ↦
            let h = e ∙ ap (λ b. (b, max m (f + 1))) n in
            let (q, d, (sound, more)) =
              perform-Grows broker library_checker (shuts_down t false x) p s in
            let c =
              Checks-left (max m (f + 1)) (on_consumer_shutdown broker library_checker t false x p)
                q (goes_on-Checks broker library_checker t x p (max m (f + 1)) h) d in
            (q, d, sound, counting (ground (arith, n)) c (omega (arith, more, few)))
      ]

  perform-Staged :
      (a f : ℕ) (o : Operation) (p : Pool Enforcer)
      → IsSound p
      → Stage m base a f p
      → Staged a f o p
  unfolding Staged
  perform-Staged a f o p s (over c few) = closing-Staged a f o p s c few
  perform-Staged a f (shuts_down t true x) p s (counting low k few) =
      let (q, d, (sound, more)) = perform-Grows broker library_checker (shuts_down t true x) p s in
      let c =
        Checks-left p.checker (on_consumer_shutdown broker library_checker t true x p) q
          (asked-Checks broker library_checker t x p) d in
      (
        q,
        d,
        sound,
        counting (omega (arith, low)) (c ∙ k ∙ ap (max m) (omega arith)) (omega (arith, more, few)),
      )
  perform-Staged a f (shuts_down t false x) p s (counting low k few) =
      unexpected a f t x p s low k few
  perform-Staged a f (stops block k after terminated in_time) p s (counting low c few) =
      let o = stops block k after terminated in_time in
      let (q, d, (sound, more)) = perform-Grows broker library_checker o p s in
      (
        q,
        d,
        sound,
        stopped a f (stop block k after terminated in_time p) p q
            (stop-Closes block k after terminated in_time p) d sound more few low,
      )
  perform-Staged a f (stops_now block) p s (counting low c few) =
      let (q, d, (sound, more)) = perform-Grows broker library_checker (stops_now block) p s in
      (
        q,
        d,
        sound,
        stopped a f (stop_now block p) p q (stop_now-Closes block p) d sound more few low,
      )

  pub moved :
      (a b f g : ℕ) (p : Pool Enforcer) → a ≡ b → f ≡ g → Stage m base a f p → Stage m base b g p
  moved a b f g p d e (counting low k few) =
      counting (omega (arith, low, e)) (k ∙ ap (max m) e) (omega (arith, few, d, e))
  moved a b f g p d e (over c few) = over c (omega (arith, few, d))

  pub perform_all-Staged :
      (a f : ℕ) (os : List Operation) (p : Pool Enforcer)
      → IsSound p
      → Stage m base a f p
      → (q : Pool Enforcer) × (perform_all broker library_checker os p ≡ some q)
        × IsSound q
        × Stage m base (a + asked os) (f + failures os) q
  unfolding perform_all Staged
  perform_all-Staged a f [] p s h =
      (p, refl, s, moved a (a + 0) f (f + 0) p (omega arith) (omega arith) h)
  perform_all-Staged a f (o ∷ os) p s h =
      let (q, e, sound, next) = perform-Staged a f o p s h in
      let (r, d, kept, last) =
        perform_all-Staged (a + asked_in o) (f + failures_in o) os q sound next in
      (
        r,
        ap (λ s'. or_stuck broker library_checker s' (perform_all broker library_checker os)) e ∙ d,
        kept,
        moved (a + asked_in o + asked os) (a + (asked_in o + asked os))
            (f + failures_in o + failures os) (f + (failures_in o + failures os)) r (omega arith)
            (omega arith) last,
      )

  pub ended :
      (a f : ℕ) (q : Pool Enforcer)
      → IsSound q
      → Stage m base a f q
      → ((q.closing ≡ true) ⊎ (f ≤ m)) × (length (openings q.log) ≤ base + a + m)
  ended a f q (xs, s) (counting low k few) =
      (inr low, omega (arith, Falls-length q.requests (openings q.log) s.opened_once, few, low))
  ended a f q s (over c few) = (inl c, few)
