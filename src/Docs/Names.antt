-- ===== src/Docs/Names.antt =====
-- The array functions of the page scripts on lists of source-set names.
use text.Mathlib.Text.{◌==◌ as str_eq}
use text.Mathlib.TextEquality.{eq_iff}
use lib_rabbit_job_queue.Common.{
  ◌≡◌, refl, Bool, false, not, ◌||◌, ◌&&◌, List, [], ◌∷◌, ◌++◌, String, arith, keep,
}

-- `names.indexOf(s) != -1`.
abbrev pub contains : String → List String → Bool
contains s [] = false
contains s (x ∷ xs) = str_eq x s || contains s xs

-- `names.filter(p => p != s)`.
abbrev pub without : String → List String → List String
without s = keep (λ x. not (str_eq x s))

-- `names.filter(q => others.indexOf(q) == -1)`.
abbrev pub minus : List String → List String → List String
minus names others = keep (λ x. not (contains x others)) names

-- `names.filter(q => -1 !== others.indexOf(q))`.
abbrev pub within : List String → List String → List String
within names others = keep (λ x. contains x others) names

pub contains-append :
    (s : String) (xs ys : List String) → contains s (xs ++ ys) ≡ (contains s xs || contains s ys)
contains-append s [] ys = refl
contains-append s (x ∷ xs) ys = ground (arith, contains-append s xs ys)

pub contains-without :
    (s t : String) (xs : List String)
    → contains s (without t xs) ≡ (contains s xs && not (str_eq t s))
contains-without s t [] = refl
contains-without s t (x ∷ xs) =
    ground (arith, contains-without s t xs, eq_iff x t, eq_iff x s, eq_iff t s)

pub contains-minus :
    (s : String) (xs ys : List String)
    → contains s (minus xs ys) ≡ (contains s xs && not (contains s ys))
contains-minus s [] ys = refl
contains-minus s (x ∷ xs) ys = ground (arith, eq_iff x s, contains-minus s xs ys)

pub contains-within :
    (s : String) (xs ys : List String)
    → contains s (within xs ys) ≡ (contains s xs && contains s ys)
contains-within s [] ys = refl
contains-within s (x ∷ xs) ys = ground (arith, eq_iff x s, contains-within s xs ys)
