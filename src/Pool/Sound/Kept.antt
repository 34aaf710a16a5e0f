-- ===== src/Pool/Sound/Kept.antt =====
-- Runs that keep what holds of a pool, and an executor that is taken out of it.
use lib_rabbit_job_queue.Common.{
  ◌≡◌, ap, true, Option, none, some, List, [], ◌∷◌, arith, ==_iff, Bool-cases, inl, inr,
}
use lib_rabbit_job_queue.Pool.State.{
  Ref, Pool, Run, Act, ok, throw, out_of_fuel, and_then, same, set_prev,
}
use lib_rabbit_job_queue.Pool.Chain.{Chain-prev}
use lib_rabbit_job_queue.Pool.Sound.{Sound, IsSound}
use lib_rabbit_job_queue.Pool.{remove_head, remove_tail, remove_inner, remove}

-- A run that does not run out of fuel leaves, by its result or by its exception, a pool with `P`.
abbrev pub Leaves : {E A : Type 0} → (Pool E → Type 0) → Run E A → Type 0
Leaves P (ok a p) = P p
Leaves P (throw e p) = P p
Leaves P out_of_fuel = ⊥

same-some : (o : Option Ref) (x : Ref) → same o x ≡ true → o ≡ some x
same-some none x h = cc
same-some (some y) x h = ap some ((==_iff y x).0 h)

module _ {E : Type 0} where
  pub Leaves-bind :
      {A B : Type 0} (P Q : Pool E → Type 0) (r : Run E A) (k : A → Act E B)
      → Leaves P r
      → ((p : Pool E) → P p → Q p)
      → ((a : A) (p : Pool E) → P p → Leaves Q (k a p))
      → Leaves Q (and_then r k)
  Leaves-bind P Q (ok a p) k l thrown next = next a p l
  Leaves-bind P Q (throw e p) k l thrown next = thrown p l
  Leaves-bind P Q out_of_fuel k l thrown next = l

  pub Leaves-mono :
      {A : Type 0} (P Q : Pool E → Type 0) (r : Run E A)
      → Leaves P r
      → ((p : Pool E) → P p → Q p)
      → Leaves Q r
  Leaves-mono P Q (ok a p) l weaken = weaken p l
  Leaves-mono P Q (throw e p) l weaken = weaken p l
  Leaves-mono P Q out_of_fuel l weaken = l

  -- `remove`, where no executor has a `prev`: a walk afterwards meets all or all but the first.
  set_prev-Sound :
      (o : Option Ref) (p : Pool E) (xs : List Ref) → Sound p xs → Sound (set_prev o none p) xs
  set_prev-Sound none p xs s = s
  set_prev-Sound (some z) p xs s = record {
    chain = Chain-prev p.executors z none p.head xs s.chain;
    distinct = s.distinct;
    made = s.made;
    room = s.room;
    tail_made = s.tail_made;
    alone = λ x. ground (arith, s.alone x);
    opened_once = s.opened_once;
    subscribed_once = s.subscribed_once;
  }

  behind :
      (p : Pool E) (x : Ref) (xs : List Ref)
      → Sound p xs
      → p.head ≡ some x
      → IsSound (record p { head = (p.executors x).next })
  behind p x [] s h = cc s.chain
  behind p x (y ∷ ys) s h =
      let e : x ≡ y = ground (arith, s.chain.0) in
      (
        ys,
        record {
          chain = rw e s.chain.1;
          distinct = s.distinct.1;
          made = s.made.1;
          room = omega (arith, s.room);
          tail_made = s.tail_made;
          alone = s.alone;
          opened_once = s.opened_once;
          subscribed_once = s.subscribed_once;
        },
      )

  no_tail : (p : Pool E) (xs : List Ref) → Sound p xs → Sound (record p { tail = none }) xs
  no_tail p xs s = record {
    chain = s.chain;
    distinct = s.distinct;
    made = s.made;
    room = s.room;
    tail_made = tt;
    alone = s.alone;
    opened_once = s.opened_once;
    subscribed_once = s.subscribed_once;
  }

  pub remove-IsSound : (x : Ref) (p : Pool E) → IsSound p → IsSound (remove x p)
  unfolding remove remove_head remove_tail remove_inner
  remove-IsSound x p (xs, s) = elim (Bool-cases (same p.head x)) [
    | inl y ↦
        let (ys, t) = behind p x xs s (same-some p.head x y) in
        rw (remove, y)
          (ys, set_prev-Sound (p.executors x).next (record p { head = (p.executors x).next }) ys t)
    | inr n ↦ elim (Bool-cases (same p.tail x)) [
      | inl y ↦ rw (remove, n, y, s.alone x) (xs, no_tail p xs s)
      | inr m ↦
          let t = set_prev-Sound (p.executors x).next p xs s in
          rw (remove, n, m, s.alone x, t.alone x) (xs, t)
    ]
  ]
