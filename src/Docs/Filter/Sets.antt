-- ===== src/Docs/Filter/Sets.antt =====
-- Sets of source-set names: lists of names in which the order and the repetitions are forgotten.
use mathlib.Core.Quot
use mathlib.Core.Quot.{Quot, Quot-set}
use mathlib.Core.Bool.{Bool-set}
use text.Mathlib.TextPositions.{eq_refl}
use lib_rabbit_job_queue.Common.{
  ◌≡◌, refl, Bool, Option, none, some, List, [], ◌∷◌, ◌++◌, String, arith, if◌then◌else◌,
}
use lib_rabbit_job_queue.Docs.Names.{contains, without, contains-append, contains-without}
use lib_rabbit_job_queue.Docs.Filter.{is_empty, dependencies_of}

-- Two lists hold the same names.
abbrev pub SameNames : List String → List String → Type 0
SameNames xs ys = (s : String) → contains s xs ≡ contains s ys

abbrev pub NameSet : Type 0
NameSet = Quot SameNames

abbrev pub set_of : List String → NameSet
set_of names = Quot.mk names

abbrev pub holds : String → NameSet → Bool
holds s = Quot.lift Bool-set (contains s) (λ xs ys h. h s)

pub SameNames-append :
    (s : String) (xs ys : List String) → SameNames xs ys → SameNames (xs ++ s ∷ []) (ys ++ s ∷ [])
SameNames-append s xs ys h t =
    rw (contains-append t xs (s ∷ []), contains-append t ys (s ∷ []), h t) refl

pub SameNames-without :
    (s : String) (xs ys : List String) → SameNames xs ys → SameNames (without s xs) (without s ys)
SameNames-without s xs ys h t = rw (contains-without t s xs, contains-without t s ys, h t) refl

abbrev pub put_name : String → NameSet → NameSet
put_name s =
    Quot.lift Quot-set (λ xs. set_of (xs ++ s ∷ []))
      (λ xs ys h. Quot.sound (SameNames-append s xs ys h))

abbrev pub take_name : String → NameSet → NameSet
take_name s =
    Quot.lift Quot-set (λ xs. set_of (without s xs))
      (λ xs ys h. Quot.sound (SameNames-without s xs ys h))

pub SameNames-is_empty : (xs ys : List String) → SameNames xs ys → is_empty xs ≡ is_empty ys
unfolding is_empty
SameNames-is_empty [] [] h = refl
SameNames-is_empty [] (y ∷ ys) h = ground (arith, h y, eq_refl y)
SameNames-is_empty (x ∷ xs) [] h = ground (arith, h x, eq_refl x)
SameNames-is_empty (x ∷ xs) (y ∷ ys) h = refl

abbrev pub is_void : NameSet → Bool
is_void = Quot.lift Bool-set is_empty SameNames-is_empty

-- A click on a filter button, by what it does to the set of the active names: it takes the name away if it is
-- there, and puts it there if it is not. When none is there, the names that it depends on are put there too,
-- if it has an entry for them; nothing happens if it has none.
abbrev pub with_dependencies : String → Option (List String) → NameSet → NameSet
with_dependencies s none names = names
with_dependencies s (some deps) names = set_of (deps ++ s ∷ [])

abbrev pub click_set : Option (List String) → String → NameSet → NameSet
click_set deps s names =
    if holds s names
    then take_name s names
    else if is_void names
    then with_dependencies s deps names
    else put_name s names

-- The same clicks on a set of names.
abbrev pub click_sets : List (String × List String) → List String → NameSet → NameSet
click_sets deps [] names = names
click_sets deps (s ∷ ss) names = click_sets deps ss (click_set (dependencies_of s deps) s names)
