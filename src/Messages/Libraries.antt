-- ===== src/Messages/Libraries.antt =====
-- The libraries that the messages use: Jackson's tree of JSON nodes, and types that are written as
-- texts and parsed from them, HashID and OffsetDateTime.
use text.Mathlib.Text.{◌==◌ as str_eq}
use lib_rabbit_job_queue.Common.{◌≡◌, Bool, true, false, Option, none, some, String, if◌then◌else◌}
use lib_rabbit_job_queue.Common.Int.{ℤ, IsInt}

-- `JsonNode` and `ObjectNode`. `get` is null where there is no such field, and `has` says that it is
-- not; `put` sets a field to the node for its value.
pub record Jackson (Node Object : Type 0) : Type 0 where
  pub empty : Object
  pub get : String → Object → Option Node
  pub set : String → Node → Object → Object
  pub text_node : String → Node
  pub int_node : ℤ → Node
  pub null_node : Node
  pub pojo_node : Node → Node
  pub is_null : Node → Bool
  pub is_textual : Node → Bool
  pub is_int : Node → Bool
  pub is_integral : Node → Bool
  pub text_value : Node → Option String
  pub int_value : Node → ℤ
  -- An object as `mapper.readValue` reads it back from the bytes of its `toString()`, and what becomes
  -- of a node in it.
  pub sent : Object → Object
  pub wire : Node → Node

-- What the messages rely on of Jackson.
pub record JacksonLaws {Node Object : Type 0} (J : Jackson Node Object) : Type 0 where
  pub get-set :
      (k j : String) (n : Node) (o : Object)
      → J.get k (J.set j n o) ≡ (if str_eq j k then some n else J.get k o)
  pub get-sent_none : (k : String) (o : Object) → J.get k o ≡ none → J.get k (J.sent o) ≡ none
  pub get-sent :
      (k : String) (o : Object) {n : Node}
      → J.get k o ≡ some n
      → J.get k (J.sent o) ≡ some (J.wire n)
  pub wire-text : (s : String) → J.wire (J.text_node s) ≡ J.text_node s
  pub wire-int : (i : ℤ) → IsInt i → J.wire (J.int_node i) ≡ J.int_node i
  pub wire-null : J.wire J.null_node ≡ J.null_node
  pub wire-pojo : (n : Node) → J.wire (J.pojo_node n) ≡ J.wire n
  pub null_text : (s : String) → J.is_null (J.text_node s) ≡ false
  pub null_int : (i : ℤ) → J.is_null (J.int_node i) ≡ false
  pub textual : (s : String) → J.is_textual (J.text_node s) ≡ true
  pub int : (i : ℤ) → IsInt i → J.is_int (J.int_node i) ≡ true
  pub integral : (i : ℤ) → J.is_integral (J.int_node i) ≡ true
  pub text_of_text : (s : String) → J.text_value (J.text_node s) ≡ some s
  pub text_of_null : J.text_value J.null_node ≡ none
  pub int_of_int : (i : ℤ) → IsInt i → J.int_value (J.int_node i) ≡ i

-- A type with a text, as `toString` gives it, and a parser that may throw.
pub record Texts (A : Type 0) : Type 0 where
  pub text : A → String
  pub parse : String → Option A

pub record TextsLaws {A : Type 0} (t : Texts A) : Type 0 where
  pub parse-text : (a : A) → t.parse (t.text a) ≡ some a
