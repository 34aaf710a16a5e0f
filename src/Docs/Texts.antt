-- ===== src/Docs/Texts.antt =====
-- The string functions of the page scripts, on texts as lists of their code units.
use Prim.Native.Char.{code}
use lib_rabbit_job_queue.Common.{
  ℕ, ◌<◌, ◌≡◌, Bool, true, false, ◌||◌, ◌&&◌, List, [], ◌∷◌, ◌++◌, String, ◌==◌, if◌then◌else◌,
  arith, length, ==_iff,
}

abbrev pub Text : Type 0
Text = List ℕ

-- The code units of a text in the basic plane.
unfoldable pub codes : String → Text
codes String.[] = []
codes (String.◌∷◌ c s) = code c ∷ codes s

abbrev pub starts_with : Text → Text → Bool
starts_with [] s = true
starts_with (p ∷ ps) [] = false
starts_with (p ∷ ps) (c ∷ s) = (p == c) && starts_with ps s

-- `s.indexOf(p) !== -1`.
unfoldable pub includes : Text → Text → Bool
includes p [] = starts_with p []
includes p (c ∷ s) = starts_with p (c ∷ s) || includes p s

-- `s.indexOf(c) !== -1` for one unit.
abbrev pub has_unit : ℕ → Text → Bool
has_unit c [] = false
has_unit c (d ∷ s) = (d == c) || has_unit c s

-- `s.substring(0, s.lastIndexOf(c))`: where there is no `c`, the end is -1, which counts as 0.
abbrev pub before_last : ℕ → Text → Text
before_last c [] = []
before_last c (d ∷ s) = if has_unit c s then d ∷ before_last c s else []

-- `s.split(c)[0]`.
abbrev pub before_first : ℕ → Text → Text
before_first c [] = []
before_first c (d ∷ s) = if d == c then [] else d ∷ before_first c s

before_last-le : (c : ℕ) (s : Text) → has_unit c s ≡ true → length (before_last c s) < length s
before_last-le c [] h = cc
before_last-le c (d ∷ s) h = ground (arith, before_last-le c s)

pub before_last-lt :
    (c : ℕ) (s : Text) → has_unit c (before_last c s) ≡ true → length (before_last c s) < length s
before_last-lt c [] h = cc
before_last-lt c (d ∷ s) h = ground (arith, before_last-le c s)

-- What follows the first c.
abbrev pub after_first : ℕ → Text → Text
after_first c [] = []
after_first c (d ∷ s) = if d == c then s else after_first c s

pub before_first-append :
    (c : ℕ) (s t : Text) → before_first c (before_first c s ++ c ∷ t) ≡ before_first c s
before_first-append c [] t = ground (arith, ==_iff c c)
before_first-append c (d ∷ s) t = ground (arith, before_first-append c s t, ==_iff c c)

pub after_first-append : (c : ℕ) (s t : Text) → after_first c (before_first c s ++ c ∷ t) ≡ t
after_first-append c [] t = ground (arith, ==_iff c c)
after_first-append c (d ∷ s) t = ground (arith, after_first-append c s t, ==_iff c c)
