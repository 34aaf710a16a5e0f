-- ===== src/Pool/Sound/Added.antt =====
-- A new executor that is made and joins a pool, or fails to, keeps what holds of the pool.
use lib_rabbit_job_queue.Common.{
  ℕ, ◌+◌, ◌<◌, ◌≤◌, length, ◌≡◌, refl, false, Option, none, some, List, [], ◌∷◌, All, arith, ==_iff,
  ==_refl, Bool-cases, inl, inr,
}
use lib_rabbit_job_queue.Pool.State.{
  Ref, Executor, Event, opened, consuming, Pool, same, update, Broker,
}
use lib_rabbit_job_queue.Pool.Chain.{has, Chain-update, below-has}
use lib_rabbit_job_queue.Pool.Sound.{
  Sound, IsSound, IsMade, Falls, Falls-mono, openings, subscriptions, cut, Chain-cut,
  cut-IsDistinct, cut-made, length-cut,
}
use lib_rabbit_job_queue.Pool.{append_to, add_behind, add, create_new, init, add_new}
use lib_rabbit_job_queue.Pool.Sound.Kept.{Leaves, Leaves-mono}

IsMade-later : (n : ℕ) (o : Option Ref) → IsMade n o → IsMade (n + 1) o
IsMade-later n none h = tt
IsMade-later n (some x) h = omega (arith, h)

all_later : (n : ℕ) (xs : List Ref) → All (λ x. x < n) xs → All (λ x. x < n + 1) xs
all_later n [] h = tt
all_later n (x ∷ xs) h = (omega (arith, h.0), all_later n xs h.1)

module _ {E : Type 0} where
  -- One more call of `channelProvider`, with what it leaves if it returns.
  requested :
      (p : Pool E) (c : ℕ) (xs : List Ref)
      → Sound p xs
      → Sound (record p { counter = c; requests = p.requests + 1 }) xs
  requested p c xs s = record {
    chain = s.chain;
    distinct = s.distinct;
    made = all_later p.requests xs s.made;
    room = omega (arith, s.room);
    tail_made = IsMade-later p.requests p.tail s.tail_made;
    alone = s.alone;
    opened_once = Falls-mono p.requests (p.requests + 1) _ (omega arith) s.opened_once;
    subscribed_once = Falls-mono p.requests (p.requests + 1) _ (omega arith) s.subscribed_once;
  }

  created :
      (p : Pool E) (c : ℕ) (e : Executor) (log : List Event) (xs : List Ref)
      → Sound p xs
      → e.prev ≡ none
      → Falls (p.requests + 1) (openings log)
      → Falls (p.requests + 1) (subscriptions log)
      → Sound
          (record p {
            counter = c;
            requests = p.requests + 1;
            executors = update p.executors p.requests e;
            log = log;
          })
          xs
  created p c e log xs s a o b = record {
    chain =
        Chain-update p.executors p.requests e p.head xs (below-has p.requests xs s.made) s.chain;
    distinct = s.distinct;
    made = all_later p.requests xs s.made;
    room = omega (arith, s.room);
    tail_made = IsMade-later p.requests p.tail s.tail_made;
    alone = λ x. ground (arith, s.alone x);
    opened_once = o;
    subscribed_once = b;
  }

  module _ (n : Ref) (p : Pool E) (xs : List Ref) (s : Sound p xs) (new : n < p.requests)
      (room : length xs < p.requests) (last : (p.executors n).next ≡ none) where
    add_first : p.head ≡ none → Sound (record p { head = some n; tail = some n }) (n ∷ [])
    add_first h = record {
      chain = (refl, last);
      distinct = (refl, tt);
      made = (new, tt);
      room = omega (arith, room);
      tail_made = new;
      alone = s.alone;
      opened_once = s.opened_once;
      subscribed_once = s.subscribed_once;
    }

    append_to-IsSound :
        (o : Option Ref)
        → IsMade n o
        → has n xs ≡ false
        → Leaves (λ q. IsSound q × (q.requests ≡ p.requests)) (append_to o n p)
    append_to-IsSound none m out = ((xs, s), refl)
    append_to-IsSound (some t) m out = (
      (
        cut t n xs,
        record {
          chain =
              Chain-cut p.executors t n p.head xs s.chain s.distinct out
                (ground (arith, ==_iff n t)) last;
          distinct = cut-IsDistinct t n xs s.distinct out;
          made = cut-made t n p.requests xs new s.made;
          room = omega (arith, room, length-cut t n xs);
          tail_made = new;
          alone = λ x. ground (arith, s.alone x);
          opened_once = s.opened_once;
          subscribed_once = s.subscribed_once;
        },
      ),
      refl,
    )

    add_behind-IsSound :
        (h : Option Ref)
        → p.head ≡ h
        → has n xs ≡ false
        → IsMade n p.tail
        → Leaves (λ q. IsSound q × (q.requests ≡ p.requests)) (add_behind h n p)
    add_behind-IsSound none e out m = ((n ∷ [], add_first e), refl)
    add_behind-IsSound (some h) e out m = append_to-IsSound p.tail m out

    add-IsSound :
        has n xs ≡ false
        → IsMade n p.tail
        → Leaves (λ q. IsSound q × (q.requests ≡ p.requests)) (add n p)
    unfolding add
    add-IsSound out m = add_behind-IsSound p.head refl out m

  -- At most `k` channels more are asked for.
  abbrev pub Grows : ℕ → Pool E → Pool E → Type 0
  Grows k p q = IsSound q × (q.requests ≤ p.requests + k)

  joins :
      (p : Pool E) (c : ℕ) (e : Executor) (xs : List Ref)
      → Sound p xs
      → e.prev ≡ none
      → e.next ≡ none
      → Leaves (Grows 1 p) (
          add p.requests (record p {
            counter = c;
            requests = p.requests + 1;
            executors = update p.executors p.requests e;
            log = consuming p.requests ∷ opened p.requests ∷ p.log;
          }))
  joins p c e xs s a b =
      let r = p.requests in
      let log = consuming r ∷ opened r ∷ p.log in
      let q : Pool E = record p {
        counter = c;
        requests = r + 1;
        executors = update p.executors r e;
        log = log;
      } in
      let sound =
        created p c e log xs s a (omega arith, s.opened_once) (omega arith, s.subscribed_once) in
      let next : (update p.executors r e r).next ≡ none = ground (arith, ==_refl r) in
      Leaves-mono (λ q'. IsSound q' × (q'.requests ≡ r + 1)) (Grows 1 p) (add r q)
        (add-IsSound r q xs sound (omega arith) (omega (arith, s.room)) next (below-has r xs s.made)
          s.tail_made)
        λ q' (kept, same). (kept, omega (arith, same))

  pub add_new-Grows :
      (broker : Broker) (p : Pool E) → IsSound p → Leaves (Grows 1 p) (add_new broker p)
  unfolding add_new create_new init
  add_new-Grows broker p (xs, s) =
      let r = p.requests in
      let later = Falls-mono r (r + 1) (subscriptions p.log) (omega arith) s.subscribed_once in
      elim (Bool-cases (broker.opens r)) [
        | inl o ↦ elim (Bool-cases (broker.consumes r)) [
          | inl c ↦ simp (o, c) (joins p _ _ xs s refl refl)
          | inr c ↦
              simp (o, c)
                (
                  (
                    xs,
                    created p _ _ (opened r ∷ p.log) xs s refl (omega arith, s.opened_once) later,
                  ),
                  omega arith,
                )
        ]
        | inr o ↦ simp (o) ((xs, requested p _ xs s), omega arith)
      ]
