-- ===== src/Pool/Runs/Checker.antt =====
-- What an operation does to the failure checker of a pool, and when it closes the pool.
use lib_rabbit_job_queue.Common.{
  ℕ, zero, suc, ◌+◌, ◌≡◌, refl, ◌∙◌, Bool, true, false, Option, none, some, ◌∷◌, arith, Bool-cases,
  inl, inr,
}
use lib_rabbit_job_queue.Common.Int.{ℤ}
use lib_rabbit_job_queue.Pool.State.{
  Ref, closed, FailureChecker, Readings, Broker, Pool, done, Run, ok, throw, out_of_fuel, and_then,
}
use lib_rabbit_job_queue.Pool.Sound.Kept.{Leaves, Leaves-bind, Leaves-mono}
use lib_rabbit_job_queue.Pool.Sound.Replaced.{Leaves-if}
use lib_rabbit_job_queue.Pool.Runs.{left_by}
use lib_rabbit_job_queue.Pool.{
  append_to, add_behind, add, remove, create_new, init, add_new, start_loop, stop_executor,
  stop_loop, stop_executors, stop, stop_now, replace, halt_pool, on_consumer_shutdown,
}

module _ {E : Type 0} where
  -- The failure checker is as it was.
  abbrev pub Checks : E → Pool E → Type 0
  Checks e q = q.checker ≡ e

  remove-checker : (x : Ref) (p : Pool E) → (remove x p).checker ≡ p.checker
  unfolding remove
  remove-checker x p = ground arith

  append_to-Checks :
      (o : Option Ref) (n : Ref) (p : Pool E) → Leaves (Checks p.checker) (append_to o n p)
  append_to-Checks none n p = refl
  append_to-Checks (some t) n p = refl

  add_behind-Checks :
      (h : Option Ref) (n : Ref) (p : Pool E) → Leaves (Checks p.checker) (add_behind h n p)
  add_behind-Checks none n p = refl
  add_behind-Checks (some h) n p = append_to-Checks p.tail n p

  add-Checks : (n : Ref) (p : Pool E) → Leaves (Checks p.checker) (add n p)
  unfolding add
  add-Checks n p = add_behind-Checks p.head n p

  add_new-Checks : (broker : Broker) (p : Pool E) → Leaves (Checks p.checker) (add_new broker p)
  unfolding add_new create_new init
  add_new-Checks broker p = elim (Bool-cases (broker.opens p.requests)) [
    | inl o ↦ elim (Bool-cases (broker.consumes p.requests)) [
      | inl c ↦ simp (o, c) (add-Checks p.requests _)
      | inr c ↦ simp (o, c) refl
    ]
    | inr o ↦ simp (o) refl
  ]

  pub start_loop-Checks :
      (broker : Broker) (n : ℕ) (p : Pool E) → Leaves (Checks p.checker) (start_loop broker n p)
  unfolding start_loop
  start_loop-Checks broker zero p = refl
  start_loop-Checks broker (suc n) p =
      Leaves-bind (Checks p.checker) (Checks p.checker) (add_new broker p)
        (λ _. start_loop broker n) (add_new-Checks broker p) (λ q e. e)
        λ _ q e.
          Leaves-mono (Checks q.checker) (Checks p.checker) (start_loop broker n q)
            (start_loop-Checks broker n q) λ r f. f ∙ e

  replace-Checks :
      (broker : Broker) (c : FailureChecker E) (x : Ref) (p : Pool E)
      → Leaves (Checks p.checker) (replace broker c x p)
  unfolding replace stop_executor
  replace-Checks broker c x p =
      let q : Pool E = record (remove x p) { log = closed x ∷ (remove x p).log } in
      let e = remove-checker x p in
      Leaves-if (Checks p.checker) (remove x p).closing (ok tt q) (add_new broker q) e (
        Leaves-mono (Checks q.checker) (Checks p.checker) (add_new broker q)
          (add_new-Checks broker q) λ r f. f ∙ e)

  pub asked-Checks :
      (broker : Broker) (c : FailureChecker E) (t : Readings) (x : Ref) (p : Pool E)
      → Leaves (Checks p.checker) (on_consumer_shutdown broker c t true x p)
  unfolding on_consumer_shutdown
  asked-Checks broker c t x p = replace-Checks broker c x p

  pub goes_on-Checks :
      (broker : Broker) (c : FailureChecker E) (t : Readings) (x : Ref) (p : Pool E) (e : E)
      → c.halt t.asked (c.mark t.marked p.checker) ≡ (false, e)
      → Leaves (Checks e) (on_consumer_shutdown broker c t false x p)
  unfolding on_consumer_shutdown
  goes_on-Checks broker c t x p e h =
      simp (h) (replace-Checks broker c x (record p { checker = e }))

  -- A run that leaves a pool, by its result or by its exception, leaves one that is closing.
  abbrev pub Closes : {A : Type 0} → Run E A → Type 0
  Closes (ok a p) = p.closing ≡ true
  Closes (throw e p) = p.closing ≡ true
  Closes out_of_fuel = Unit

  Closes-bind :
      {A B : Type 0} (r : Run E A) (k : A → Pool E → Run E B)
      → Closes r
      → ((a : A) (p : Pool E) → p.closing ≡ true → Closes (k a p))
      → Closes (and_then r k)
  Closes-bind (ok a p) k h next = next a p h
  Closes-bind (throw e p) k h next = h
  Closes-bind out_of_fuel k h next = tt

  stop_loop-Closes :
      (fuel : ℕ) (h : Option Ref) (p : Pool E) → p.closing ≡ true → Closes (stop_loop fuel h p)
  unfolding stop_loop stop_executor
  stop_loop-Closes fuel none p c = c
  stop_loop-Closes zero (some x) p c = tt
  stop_loop-Closes (suc fuel) (some x) p c = stop_loop-Closes fuel (p.executors x).next _ c

  stop_executors-Closes : (p : Pool E) → Closes (stop_executors p)
  unfolding stop_executors
  stop_executors-Closes p = elim (Bool-cases p.closing) [
    | inl y ↦ simp y refl
    | inr n ↦ simp n (stop_loop-Closes (p.requests + 1) p.head _ refl)
  ]

  after_stop :
      {A : Type 0} (p : Pool E) (k : Unit {0} → Pool E → Run E A)
      → ((q : Pool E) → q.closing ≡ true → Closes (k tt q))
      → Closes (and_then (stop_executors p) k)
  after_stop p k next = Closes-bind (stop_executors p) k (stop_executors-Closes p) λ _. next

  pub stop-Closes :
      (block : Bool) (k : ℤ) (after terminated in_time : Bool) (p : Pool E)
      → Closes (stop block k after terminated in_time p)
  unfolding stop
  stop-Closes false k a true b p = after_stop p _ λ q h. h
  stop-Closes false k a false b p = after_stop p _ λ q h. h
  stop-Closes true k a t true p = after_stop p _ λ q h. h
  stop-Closes true k true t false p = after_stop p _ λ q h. h
  stop-Closes true k false t false p = after_stop p _ λ q h. h

  pub stop_now-Closes : (block : Bool) (p : Pool E) → Closes (stop_now block p)
  unfolding stop_now
  stop_now-Closes true p = after_stop p _ λ q h. h
  stop_now-Closes false p = after_stop p _ λ q h. h

  pub halts-Closes :
      (broker : Broker) (c : FailureChecker E) (t : Readings) (x : Ref) (p : Pool E) (e : E)
      → c.halt t.asked (c.mark t.marked p.checker) ≡ (true, e)
      → (c.tells t.told e).0 ≡ true
      → Closes (on_consumer_shutdown broker c t false x p)
  unfolding on_consumer_shutdown halt_pool
  halts-Closes broker c t x p e h told =
      let q : Pool E = record p { checker = (c.tells t.told e).1 } in
      simp (h, told) (Closes-bind (stop_now true q) (λ _. done) (stop_now-Closes true q) λ _ r k. k)

  pub Closes-left :
      {A : Type 0} (r : Run E A) (q : Pool E) → Closes r → left_by r ≡ some q → q.closing ≡ true
  Closes-left (ok a p) q h e = ground (arith, h, e)
  Closes-left (throw x p) q h e = ground (arith, h, e)
  Closes-left out_of_fuel q h e = ground (arith, h, e)

  pub Checks-left :
      {A : Type 0} (k : E) (r : Run E A) (q : Pool E)
      → Leaves (Checks k) r
      → left_by r ≡ some q
      → q.checker ≡ k
  Checks-left k (ok a p) q h e = ground (arith, h, e)
  Checks-left k (throw x p) q h e = ground (arith, h, e)
  Checks-left k out_of_fuel q h e = absurd h
