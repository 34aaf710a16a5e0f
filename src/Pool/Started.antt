-- ===== src/Pool/Started.antt =====
-- Adding a new executor to a well-formed pool, and starting a pool.
use lib_rabbit_job_queue.Common.{
  ℕ, zero, suc, ◌+◌, ◌%◌, ◌≡◌, ◌↔◌, refl, true, false, none, some, List, [], ◌∷◌, ◌++◌,
  append_assoc, append-nil, subst, String, arith, length-append, ==_refl, ap, sym, ◌∙◌,
}
use mathlib.Core.Path.{ap₂}
use lib_rabbit_job_queue.Common.Int.{ℤ, pos, uint_mod, pos_part, ◌≤ℤ◌, ◌<ℤ◌}
use lib_rabbit_job_queue.Pool.State.{
  Ref, Executor, Event, opened, consuming, Broker, Pool, Returns, returns, Returns-bind,
  Returns-mono, update,
}
use lib_rabbit_job_queue.Pool.Chain.{
  last, IsLinked, below-has, Chain-update, Chain-append, IsDistinct-append, last-append,
  below-append, alone-append,
}
use lib_rabbit_job_queue.Pool.{add_new, start_loop, start, new_pool}

-- What the creation of one executor changes beside the list.
pub record Grown {E : Type 0} (p q : Pool E) : Type 0 where
  pub log : q.log ≡ consuming p.requests ∷ opened p.requests ∷ p.log
  pub requests : q.requests ≡ p.requests + 1
  pub closing : q.closing ≡ p.closing
  pub checker : q.checker ≡ p.checker
  pub counter : q.counter ≡ (p.counter + 1) % uint_mod
  pub number : (q.executors p.requests).id.number ≡ q.counter

module _ {E : Type 0} (broker : Broker) (p : Pool E) (o : broker.opens p.requests ≡ true)
    (c : broker.consumes p.requests ≡ true) where
  abbrev newcomer : Executor
  newcomer = record {
    id = record { queue = p.queue_name; number = (p.counter + 1) % uint_mod };
    prev = none;
    next = none;
  }

  -- A new executor is opened, subscribed and put at the end of the list.
  pub add_new-IsLinked :
      (xs : List Ref)
      → IsLinked p xs
      → Returns (λ _ q. IsLinked q (xs ++ p.requests ∷ []) × Grown p q) (add_new broker p)
  unfolding add_new
  add_new-IsLinked [] l =
      rw (o, c, l.chain)
        (returns (ground (arith, ==_refl p.requests), ground (arith, ==_refl p.requests)))
  add_new-IsLinked (x ∷ xs) l =
      let n = p.requests in
      let out = below-has n (x ∷ xs) l.made in
      let s = update p.executors n newcomer in
      let r = update s (last x xs) (record (s (last x xs)) { next = some n }) in
      let fresh : (s n).next ≡ none = ground (arith, ==_refl n) in
      rw (o, c, l.chain.0, l.ends)
        (returns (
          record {
            chain =
                Chain-append s n (some x) x xs
                  (Chain-update p.executors n newcomer (some x) (x ∷ xs) out (refl, l.chain.1))
                  l.distinct out fresh;
            ends = ap some (sym (last-append n x xs));
            distinct = IsDistinct-append n (x ∷ xs) l.distinct out;
            made = below-append n (x ∷ xs) l.made;
            room = omega (arith, l.room, length-append xs (n ∷ []));
            alone =
                alone-append p.executors r n (x ∷ xs) (λ y h. ground arith) (ground arith) l.alone;
          },
          record {
            log = refl;
            requests = refl;
            closing = refl;
            checker = refl;
            counter = refl;
            number = ground (arith, ==_refl n);
          },
        ))

-- k, k + 1, … : n references.
abbrev pub upto : ℕ → ℕ → List Ref
upto k zero = []
upto k (suc n) = k ∷ upto (k + 1) n

-- The log after the executors k, k + 1, … have been opened and subscribed in turn.
abbrev pub served : ℕ → ℕ → List Event → List Event
served k zero log = log
served k (suc n) log = served (k + 1) n (consuming k ∷ opened k ∷ log)

-- A pool that has grown by n executors from its request k on.
pub record Started {E : Type 0} (p : Pool E) (xs : List Ref) (k n : ℕ) (q : Pool E) : Type 0 where
  pub linked : IsLinked q (xs ++ upto k n)
  pub log : q.log ≡ served k n p.log
  pub closing : q.closing ≡ p.closing

module _ {E : Type 0} (broker : Broker) (opens : (x : Ref) → broker.opens x ≡ true)
    (consumes : (x : Ref) → broker.consumes x ≡ true) where
  start_loop-Started :
      (n : ℕ) (p : Pool E) (xs : List Ref)
      → IsLinked p xs
      → Returns (λ _ q. Started p xs p.requests n q) (start_loop broker n p)
  unfolding start_loop
  start_loop-Started zero p xs l =
      returns (record { linked = rw append-nil l; log = refl; closing = refl })
  start_loop-Started (suc n) p xs l =
      Returns-bind (add_new-IsLinked broker p (opens p.requests) (consumes p.requests) xs l)
        λ _ q (linked, g).
          Returns-mono (start_loop-Started n q (xs ++ p.requests ∷ []) linked) λ _ r t. record {
            linked =
                subst (IsLinked r) (append_assoc xs (p.requests ∷ []) (upto (p.requests + 1) n)) (
                  subst (λ m. IsLinked r ((xs ++ p.requests ∷ []) ++ upto m n)) g.requests
                    t.linked);
            log = t.log ∙ ap₂ (λ m log. served m n log) g.requests g.log;
            closing = t.closing ∙ g.closing;
          }

  -- A new pool of a legal size, whose broker refuses nothing, starts without an exception: its list
  -- then holds as many executors as the pool's size, oldest first, each of them opened and subscribed
  -- once, and nothing else has been asked of the broker.
  pub start-Started :
      (size : ℤ) (queue : String) (checker : E) {p : Pool E}
      → new_pool size queue checker ≡ some p
      → Returns
          (λ _ q.
            IsLinked q (upto 0 (pos_part size))
            × (q.log ≡ served 0 (pos_part size) [])
            × (q.closing ≡ false))
          (start broker p)
  unfolding start new_pool
  start-Started size queue checker {p} h =
      let at : p.requests ≡ 0 = ground arith in
      let log : p.log ≡ [] = ground arith in
      let none_yet : p.head ≡ none = ground arith in
      let opened : p.closing ≡ false = ground arith in
      let sized : p.pool_size ≡ size = ground arith in
      simp sized (
        Returns-mono
          (start_loop-Started (pos_part size) p [] (record {
            chain = none_yet;
            ends = tt;
            distinct = tt;
            made = tt;
            room = omega arith;
            alone = tt;
          }))
          λ _ q t. (
            subst (λ k. IsLinked q (upto k (pos_part size))) at t.linked,
            t.log ∙ ap₂ (λ k log. served k (pos_part size) log) at log,
            t.closing ∙ opened,
          ))

-- Of the sizes from one on, the constructor refuses those above 64.
pub new_pool-none :
    {E : Type 0} (size : ℤ) (queue : String) (checker : E)
    → pos 1 ≤ℤ size
    → (new_pool size queue checker ≡ none) ↔ (pos 64 <ℤ size)
unfolding new_pool
new_pool-none size queue checker h = (λ e. ground arith, λ k. ground arith)
