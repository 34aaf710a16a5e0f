-- ===== src/Pool/Sound.antt =====
-- What holds of a pool whatever has happened to it: a walk along `next` comes to an end, and no channel
-- was opened or subscribed twice.
pub mod Kept
pub mod Added
pub mod Ended
pub mod Replaced
use lib_rabbit_job_queue.Common.{
  ℕ, suc, ◌+◌, ◌<◌, ◌≤◌, length, ◌≡◌, refl, Bool, true, false, Option, none, some, List, [], ◌∷◌,
  All, arith, ◌==◌, ==_iff, Bool-cases, inl, inr, if◌then◌else◌,
}
use lib_rabbit_job_queue.Pool.State.{Ref, Executor, Event, opened, consuming, Pool, update}
use lib_rabbit_job_queue.Pool.Chain.{Store, Chain, has, IsDistinct}

-- The executors whose channels were opened, and those that were subscribed, newest first.
abbrev pub openings : List Event → List Ref
openings [] = []
openings (opened x ∷ log) = x ∷ openings log
openings (_ ∷ log) = openings log

abbrev pub subscriptions : List Event → List Ref
subscriptions [] = []
subscriptions (consuming x ∷ log) = x ∷ subscriptions log
subscriptions (_ ∷ log) = subscriptions log

-- References that fall, all of them below `n`.
abbrev pub Falls : ℕ → List Ref → Type 0
Falls n [] = Unit
Falls n (x ∷ xs) = (x < n) × Falls x xs

abbrev pub IsMade : ℕ → Option Ref → Type 0
IsMade n none = Unit
IsMade n (some x) = x < n

-- `xs` is what a walk along `next` from the head meets. The tail may be anywhere, or missing.
pub record Sound {E : Type 0} (p : Pool E) (xs : List Ref) : Type 0 where
  pub chain : Chain p.executors p.head xs
  pub distinct : IsDistinct xs
  pub made : All (λ x. x < p.requests) xs
  pub room : length xs ≤ p.requests
  pub tail_made : IsMade p.requests p.tail
  pub alone : (x : Ref) → (p.executors x).prev ≡ none
  pub opened_once : Falls p.requests (openings p.log)
  pub subscribed_once : Falls p.requests (subscriptions p.log)

abbrev pub IsSound : {E : Type 0} → Pool E → Type 0
IsSound p = (xs : List Ref) × Sound p xs

-- Falling references are distinct, and no more than their bound.
pub Falls-has : (n a : ℕ) (xs : List Ref) → Falls n xs → n ≤ a → has a xs ≡ false
Falls-has n a [] f h = refl
Falls-has n a (x ∷ xs) f h = ground (arith, Falls-has x a xs f.1 (omega (arith, f.0)))

pub Falls-IsDistinct : (n : ℕ) (xs : List Ref) → Falls n xs → IsDistinct xs
Falls-IsDistinct n [] f = tt
Falls-IsDistinct n (x ∷ xs) f = (Falls-has x x xs f.1 (omega arith), Falls-IsDistinct x xs f.1)

pub Falls-length : (n : ℕ) (xs : List Ref) → Falls n xs → length xs ≤ n
Falls-length n [] f = omega arith
Falls-length n (x ∷ xs) f = omega (arith, f.0, Falls-length x xs f.1)

pub Falls-mono : (n m : ℕ) (xs : List Ref) → n ≤ m → Falls n xs → Falls m xs
Falls-mono n m [] h f = tt
Falls-mono n m (x ∷ xs) h f = (omega (arith, h, f.0), f.1)

-- The walk after `n` has become the next of `t`, wherever `t` is: it ends there.
abbrev pub cut : Ref → Ref → List Ref → List Ref
cut t n [] = []
cut t n (x ∷ xs) = let rest = cut t n xs in if x == t then x ∷ n ∷ [] else x ∷ rest

pub Chain-cut :
    (s : Store) (t n : Ref) (h : Option Ref) (xs : List Ref)
    → Chain s h xs
    → IsDistinct xs
    → has n xs ≡ false
    → (n == t) ≡ false
    → (s n).next ≡ none
    → Chain (update s t (record (s t) { next = some n })) h (cut t n xs)
Chain-cut s t n h [] c d out apart e = c
Chain-cut s t n h (x ∷ xs) c d out apart e = elim (Bool-cases (x == t)) [
  | inl y ↦ rw y (c.0, (ground arith, ground arith))
  | inr f ↦
      let same : update s t (record (s t) { next = some n }) x ≡ s x = ground arith in
      rw f (c.0, rw same (Chain-cut s t n (s x).next xs c.1 d.1 (ground arith) apart e))
]

has-cut :
    (a t n : Ref) (xs : List Ref) → has a xs ≡ false → (a == n) ≡ false → has a (cut t n xs) ≡ false
has-cut a t n [] h k = refl
has-cut a t n (x ∷ xs) h k = ground (arith, has-cut a t n xs)

pub cut-IsDistinct :
    (t n : Ref) (xs : List Ref) → IsDistinct xs → has n xs ≡ false → IsDistinct (cut t n xs)
cut-IsDistinct t n [] d h = tt
cut-IsDistinct t n (x ∷ xs) d h = elim (Bool-cases (x == t)) [
  | inl y ↦ rw y (ground (arith, ==_iff n x, ==_iff x n), (refl, tt))
  | inr f ↦ rw f (
    has-cut x t n xs d.0 (ground (arith, ==_iff n x, ==_iff x n)),
    cut-IsDistinct t n xs d.1 (ground arith),
  )
]

pub cut-made :
    (t n bound : ℕ) (xs : List Ref)
    → n < bound
    → All (λ x. x < bound) xs
    → All (λ x. x < bound) (cut t n xs)
cut-made t n bound [] new h = tt
cut-made t n bound (x ∷ xs) new h = elim (Bool-cases (x == t)) [
  | inl y ↦ rw y (h.0, (new, tt))
  | inr f ↦ rw f (h.0, cut-made t n bound xs new h.1)
]

pub length-cut : (t n : ℕ) (xs : List Ref) → length (cut t n xs) ≤ suc (length xs)
length-cut t n [] = omega arith
length-cut t n (x ∷ xs) = ground (arith, length-cut t n xs)
