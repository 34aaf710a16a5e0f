-- ===== src/Docs/Selector.antt =====
-- docs/dokka/scripts/platform-content-handler.js: the string in the selector `a[data-name="…"]`, in which a
-- backslash begins an escape of CSS.
mod Tests
use Prim.Native.Nat.{◌-◌, ◌/◌}
use lib_rabbit_job_queue.Common.{
  ℕ, ◌+◌, ◌*◌, ◌%◌, Bool, true, false, ◌||◌, ◌&&◌, not, Option, none, some, List, [], ◌∷◌, ◌++◌,
  ◌==◌, ltb, if◌then◌else◌,
}
use lib_rabbit_job_queue.Docs.Texts.{Text}

abbrev between : ℕ → ℕ → ℕ → Bool
between low high c = not (ltb c low) && not (ltb high c)

abbrev hex_digit : ℕ → Option ℕ
hex_digit c =
    if between b'0' b'9' c
    then some (c - b'0')
    else if between b'a' b'f' c
    then some (c - b'a' + 10)
    else if between b'A' b'F' c
    then some (c - b'A' + 10)
    else none

-- The code units of a code point; zero, a surrogate and what is no code point stand for U+FFFD.
abbrev units : ℕ → Text
units v =
    if (v == 0) || between 0xD800 0xDFFF v || ltb 0x10FFFF v
    then 0xFFFD ∷ []
    else if ltb v 0x10000
    then v ∷ []
    else (0xD800 + (v - 0x10000) / 0x400) ∷ (0xDC00 + (v - 0x10000) % 0x400) ∷ []

-- Outside an escape, right behind its backslash, or behind so many of its hexadecimal digits.
pub data Escape : Type 0 where
  outside behind_backslash : Escape
  hexadecimal : (value digits : ℕ) → Escape

abbrev plain : ℕ → Text × Escape
plain c = if c == b'\\' then ([], behind_backslash) else (c ∷ [], outside)

abbrev begin_escape : ℕ → Option ℕ → Text × Escape
begin_escape c none = (c ∷ [], outside)
begin_escape c (some d) = ([], hexadecimal d 1)

abbrev continue_escape : ℕ → ℕ → ℕ → Option ℕ → Text × Escape
continue_escape v k c (some d) =
    if ltb k 6
    then ([], hexadecimal (v * 16 + d) (k + 1))
    else (units v ++ (plain c).0, (plain c).1)
continue_escape v k c none = (units v ++ (plain c).0, (plain c).1)

abbrev step : Escape → ℕ → Text × Escape
step outside c = plain c
step behind_backslash c = begin_escape c (hex_digit c)
step (hexadecimal v k) c = continue_escape v k c (hex_digit c)

-- Behind a backslash at its end the text takes the closing quote and the bracket with it.
abbrev finish : Escape → Text
finish outside = []
finish behind_backslash = b'"' ∷ b']' ∷ []
finish (hexadecimal v k) = units v

unfoldable pub css_value_from : Escape → Text → Text
css_value_from e [] = finish e
css_value_from e (c ∷ s) = let (out, e') = step e c in out ++ css_value_from e' s

-- The value of the string. There are no quotes, spaces and line breaks in it, since the browser encodes them in the
-- hash of an address.
unfoldable pub css_value : Text → Text
unfolding css_value_from
css_value = css_value_from outside
