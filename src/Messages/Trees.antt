-- ===== src/Messages/Trees.antt =====
-- A small tree of JSON nodes that has the laws of Jackson, and texts that are parsed as they are.
use text.Mathlib.Text.{◌==◌ as str_eq}
use lib_rabbit_job_queue.Common.{
  ◌≡◌, refl, Bool, true, false, Option, none, some, List, [], ◌∷◌, String, arith, if◌then◌else◌,
}
use lib_rabbit_job_queue.Common.Int.{ℤ, pos}
use lib_rabbit_job_queue.Messages.Libraries.{Jackson, JacksonLaws, Texts, TextsLaws}

pub data Tree : Type 0 where
  word : String → Tree
  number : ℤ → Tree
  null : Tree
  wrapped : Tree → Tree

abbrev pub Fields : Type 0
Fields = List (String × Tree)

abbrev find : String → Fields → Option Tree
find k [] = none
find k ((j, n) ∷ rest) = if str_eq j k then some n else find k rest

abbrev unwrap : Tree → Tree
unwrap (word s) = word s
unwrap (number i) = number i
unwrap null = null
unwrap (wrapped n) = unwrap n

abbrev pub send : Fields → Fields
send [] = []
send ((j, n) ∷ rest) = (j, unwrap n) ∷ send rest

abbrev is_text : Tree → Bool
is_text (word s) = true
is_text _ = false

abbrev is_number : Tree → Bool
is_number (number i) = true
is_number _ = false

abbrev is_null_tree : Tree → Bool
is_null_tree null = true
is_null_tree _ = false

abbrev text_of : Tree → Option String
text_of (word s) = some s
text_of _ = none

abbrev number_of : Tree → ℤ
number_of (number i) = i
number_of _ = pos 0

abbrev pub trees : Jackson Tree Fields
trees = record {
  empty = [];
  get = find;
  set = λ j n o. (j, n) ∷ o;
  text_node = word;
  int_node = number;
  null_node = null;
  pojo_node = wrapped;
  is_null = is_null_tree;
  is_textual = is_text;
  is_int = is_number;
  is_integral = is_number;
  text_value = text_of;
  int_value = number_of;
  sent = send;
  wire = unwrap;
}

absent_when_sent : (k : String) (o : Fields) → find k o ≡ none → find k (send o) ≡ none
absent_when_sent k [] e = refl
absent_when_sent k ((j, n) ∷ rest) e = ground (arith, absent_when_sent k rest)

find-send :
    (k : String) (o : Fields) {n : Tree} → find k o ≡ some n → find k (send o) ≡ some (unwrap n)
find-send k [] e = cc
find-send k ((j, m) ∷ rest) {n} e = ground (arith, find-send k rest {n = n})

pub trees_laws : JacksonLaws trees
trees_laws = record {
  get-set = λ k j n o. refl;
  get-sent_none = absent_when_sent;
  get-sent = find-send;
  wire-text = λ s. refl;
  wire-int = λ i h. refl;
  wire-null = refl;
  wire-pojo = λ n. refl;
  null_text = λ s. refl;
  null_int = λ i. refl;
  textual = λ s. refl;
  int = λ i h. refl;
  integral = λ i. refl;
  text_of_text = λ s. refl;
  text_of_null = refl;
  int_of_int = λ i h. refl;
}

abbrev pub plain : Texts String
plain = record { text = λ s. s; parse = some }

pub plain_laws : TextsLaws plain
plain_laws = record { parse-text = λ s. refl }
