-- ===== src/Pool/Attempting.antt =====
-- The callback of `onConsumerShutdown` where the pool goes on, whatever the broker answers: what is asked of
-- the broker for the new executor, and that the pool is open afterwards.
use lib_rabbit_job_queue.Common.{
  ◌+◌, ◌≡◌, refl, ap, ◌∙◌, Bool, false, Option, none, some, List, ◌∷◌, Bool-cases, inl, inr,
  if◌then◌else◌,
}
use mathlib.Core.Path.{ap₂}
use lib_rabbit_job_queue.Pool.State.{
  Ref, Event, opened, consuming, closed, FailureChecker, Readings, Broker, Pool,
}
use lib_rabbit_job_queue.Pool.Sound.Kept.{Leaves, Leaves-mono}
use lib_rabbit_job_queue.Pool.Replacing.{
  GoesOn, checked, checked_frame, remove_frame, stopped, GoesOn-add_new,
}
use lib_rabbit_job_queue.Pool.{
  append_to, add_behind, add, create_new, init, add_new, on_consumer_shutdown,
}

-- The log after the broker has been asked for the channel of an executor and, if it gave one, for its
-- subscription.
abbrev pub attempts : Broker → Ref → List Event → List Event
attempts broker n log =
    if broker.opens n
    then (if broker.consumes n then consuming n ∷ opened n ∷ log else opened n ∷ log)
    else log

module _ {E : Type 0} where
  -- The pool is as open as before, as many channels have been asked for, and the log is as given.
  abbrev Framed : Pool E → List Event → Pool E → Type 0
  Framed p log q = (q.closing ≡ p.closing) × (q.requests ≡ p.requests) × (q.log ≡ log)

  append_to-Framed :
      (o : Option Ref) (n : Ref) (p : Pool E) → Leaves (Framed p p.log) (append_to o n p)
  append_to-Framed none n p = (refl, refl, refl)
  append_to-Framed (some t) n p = (refl, refl, refl)

  add_behind-Framed :
      (h : Option Ref) (n : Ref) (p : Pool E) → Leaves (Framed p p.log) (add_behind h n p)
  add_behind-Framed none n p = (refl, refl, refl)
  add_behind-Framed (some h) n p = append_to-Framed p.tail n p

  add-Framed : (n : Ref) (p : Pool E) → Leaves (Framed p p.log) (add n p)
  unfolding add
  add-Framed n p = add_behind-Framed p.head n p

  -- One more channel has been asked for, and the log has what the broker made of it.
  abbrev Asked : Broker → Pool E → Pool E → Type 0
  Asked broker p q =
      (q.closing ≡ p.closing)
      × (q.requests ≡ p.requests + 1)
      × (q.log ≡ attempts broker p.requests p.log)

  add-Asked :
      (broker : Broker) (p : Pool E) (n : Ref) (q : Pool E)
      → Asked broker p q
      → Leaves (Asked broker p) (add n q)
  add-Asked broker p n q (x, m, e) =
      Leaves-mono (Framed q q.log) (Asked broker p) (add n q) (add-Framed n q)
        λ r (y, k, f). (y ∙ x, k ∙ m, f ∙ e)

  add_new-Asked : (broker : Broker) (p : Pool E) → Leaves (Asked broker p) (add_new broker p)
  unfolding add_new create_new init add
  add_new-Asked broker p = elim (Bool-cases (broker.opens p.requests)) [
    | inl o ↦ elim (Bool-cases (broker.consumes p.requests)) [
      | inl c ↦ simp (o, c) (add-Asked broker p p.requests _ (refl, refl, rw (o, c) refl))
      | inr c ↦ simp (o, c) (refl, refl, refl)
    ]
    | inr o ↦ simp o (refl, refl, refl)
  ]

  -- The pool `q` is open after `p` has closed the executor `x` and tried to open another.
  abbrev pub Tried : Broker → Ref → Pool E → Pool E → Type 0
  Tried broker x p q =
      (q.closing ≡ false)
      × (q.requests ≡ p.requests + 1)
      × (q.log ≡ attempts broker p.requests (closed x ∷ p.log))

  -- An open pool that is not to halt closes the dead executor, and asks the broker for one channel and for its
  -- subscription. It is open afterwards, also where the broker refuses or the callback throws.
  pub shutdown-Tried :
      (broker : Broker) (c : FailureChecker E) (now : Readings) (asked : Bool) (x : Ref)
      (p : Pool E)
      → GoesOn c now asked p
      → p.closing ≡ false
      → Leaves (Tried broker x p) (on_consumer_shutdown broker c now asked x p)
  shutdown-Tried broker c now asked x p g is_open =
      let q = checked c now asked p in
      let f = checked_frame c now asked p in
      let h = remove_frame x q in
      rw (GoesOn-add_new broker c now asked x p g is_open) (
        Leaves-mono (Asked broker (stopped x q)) (Tried broker x p) (add_new broker (stopped x q))
          (add_new-Asked broker (stopped x q))
          λ r (o, m, e). (
            o ∙ h.0 ∙ f.0 ∙ is_open,
            m ∙ ap (λ k. k + 1) (h.1 ∙ f.1),
            e ∙ ap₂ (λ k log. attempts broker k (closed x ∷ log)) (h.1 ∙ f.1) (h.2 ∙ f.2),
          ))
