-- ===== src/Messages.antt =====
-- model/JobDispatch.kt, ErrorNotification.kt and SuccessNotification.kt: the three messages, and how
-- they are read from JSON objects and written to them.
pub mod Libraries
pub mod Transport
pub mod Trees
use lib_rabbit_job_queue.Common.{
  Bool, true, false, not, ◌&&◌, Option, none, some, List, [], ◌∷◌, String, if◌then◌else◌,
}
use lib_rabbit_job_queue.Common.Int.{ℤ}
use lib_rabbit_job_queue.Messages.Libraries.{Jackson, Texts}

-- Why a message cannot be read: by the checks of `fromJson`, each with its key, by the parsers of the
-- two libraries, or by the use of a field that is not there.
pub data Invalid : Type 0 where
  missing null_field wrong_type : String → Invalid
  bad_id bad_time null_pointer : Invalid

pub data Parsed (A : Type 0) : Type 0 where
  parsed : A → Parsed A
  rejected : Invalid → Parsed A

-- `if (…) throw …`, one after the other.
pub first_failure : List (Bool × Invalid) → Option Invalid
first_failure [] = none
first_failure ((fails, e) ∷ checks) =
    let rest = first_failure checks in if fails then some e else rest

abbrev pub unless : {A : Type 0} → Option Invalid → Parsed A → Parsed A
unless none result = result
unless (some e) result = rejected e

abbrev pub or_reject : {A B : Type 0} → Invalid → Option A → (A → Parsed B) → Parsed B
or_reject e none k = rejected e
or_reject e (some a) k = k a

module _ {Node Object : Type 0} (J : Jackson Node Object) where
  open J use {get, set, text_node, int_node, null_node, pojo_node, is_null, text_value}

  abbrev pub is_none : Option Node → Bool
  is_none none = true
  is_none (some n) = false

  -- A test of `json.get(key)`, which the checks before it have found.
  abbrev pub test : (Node → Bool) → Option Node → Bool
  test p none = false
  test p (some n) = p n

  abbrev pub lacks : Object → String → Bool × Invalid
  lacks o key = (is_none (get key o), missing key)

  abbrev pub nulls : Object → String → Bool × Invalid
  nulls o key = (test is_null (get key o), null_field key)

  abbrev pub other_than : (Node → Bool) → Object → String → Bool × Invalid
  other_than p o key = (test (λ n. not (p n)) (get key o), wrong_type key)

  -- `json.get(key).textValue()`, which may be null.
  abbrev pub text_at : Option Node → Option String
  text_at none = none
  text_at (some n) = text_value n

  abbrev pub text_or_null : Option String → Node
  text_or_null none = null_node
  text_or_null (some s) = text_node s

  abbrev pub node_or_null : Option Node → Node
  node_or_null none = null_node
  node_or_null (some n) = n

  abbrev pub pojo_or_null : Option Node → Node
  pojo_or_null none = null_node
  pojo_or_null (some n) = pojo_node n

pub record JobDispatch (HashId Time Node : Type 0) : Type 0 where
  pub job_id : HashId
  pub body : Option Node
  pub type : String
  pub attempt_count : ℤ
  pub dispatched : Time

pub record ErrorNotification (HashId Node : Type 0) : Type 0 where
  pub job_id : HashId
  pub code : ℤ
  pub attempt_count : ℤ
  pub message : Option String
  pub body : Option Node

pub record SuccessNotification (HashId : Type 0) : Type 0 where
  pub job_id : HashId

module _ {Node Object HashId Time : Type 0} (J : Jackson Node Object) (ids : Texts HashId)
    (times : Texts Time) where
  open J use {get, set, empty, text_node, int_node, is_textual, is_int, is_integral, int_value}

  abbrev pub int_at :
      Option Node
      → (ℤ → Parsed (JobDispatch HashId Time Node))
      → Parsed (JobDispatch HashId Time Node)
  int_at n k = or_reject null_pointer n (λ n. k (int_value n))

  -- `JobDispatch.toJson`.
  pub dispatch_to_json : JobDispatch HashId Time Node → Object
  dispatch_to_json d = set "body" (pojo_or_null J d.body) (
      set "attemptCount" (int_node d.attempt_count) (
        set "dispatched" (text_node (times.text d.dispatched))
          (set "type" (text_node d.type) (set "jobID" (text_node (ids.text d.job_id)) empty))))

  -- `JobDispatch.fromJson`.
  pub dispatch_from_json : Object → Parsed (JobDispatch HashId Time Node)
  unfolding first_failure
  dispatch_from_json o =
      unless
        (first_failure (
          lacks J o "jobID"
          ∷ lacks J o "type"
          ∷ lacks J o "body"
          ∷ lacks J o "dispatched"
          ∷ lacks J o "attemptCount"
          ∷ nulls J o "jobID"
          ∷ nulls J o "type"
          ∷ nulls J o "dispatched"
          ∷ nulls J o "attemptCount"
          ∷ other_than J is_textual o "jobID"
          ∷ other_than J is_textual o "type"
          ∷ other_than J is_textual o "dispatched"
          ∷ other_than J is_int o "attemptCount"
          ∷ []))
        (or_reject null_pointer (text_at J (get "jobID" o)) λ id_text.
          or_reject bad_id (ids.parse id_text) λ id.
            or_reject null_pointer (text_at J (get "type" o)) λ type.
              or_reject null_pointer (text_at J (get "dispatched" o)) λ time_text.
                or_reject bad_time (times.parse time_text) λ time.
                  or_reject null_pointer (get "attemptCount" o) λ attempts. parsed (record {
                    job_id = id;
                    body = get "body" o;
                    type = type;
                    attempt_count = int_value attempts;
                    dispatched = time;
                  }))

module _ {Node Object HashId : Type 0} (J : Jackson Node Object) (ids : Texts HashId) where
  open J use {get, set, empty, text_node, int_node, is_textual, is_integral, int_value, text_value}

  -- `ErrorNotification.toJson`.
  pub error_to_json : ErrorNotification HashId Node → Object
  error_to_json e = set "body" (node_or_null J e.body) (
      set "attemptCount" (int_node e.attempt_count) (
        set "message" (text_or_null J e.message)
          (set "code" (int_node e.code) (set "jobID" (text_node (ids.text e.job_id)) empty))))

  -- `ErrorNotification.fromJson`, which does not check that there is a message.
  pub error_from_json : Object → Parsed (ErrorNotification HashId Node)
  unfolding first_failure
  error_from_json o =
      unless
        (first_failure (
          lacks J o "jobID"
          ∷ lacks J o "code"
          ∷ lacks J o "body"
          ∷ lacks J o "attemptCount"
          ∷ nulls J o "jobID"
          ∷ nulls J o "code"
          ∷ nulls J o "attemptCount"
          ∷ other_than J is_textual o "jobID"
          ∷ other_than J is_integral o "code"
          ∷ other_than J is_integral o "attemptCount"
          ∷ []))
        (or_reject null_pointer (text_at J (get "jobID" o)) λ id_text.
          or_reject bad_id (ids.parse id_text) λ id. or_reject null_pointer (get "code" o) λ code.
            or_reject null_pointer (get "message" o) λ message.
              or_reject null_pointer (get "attemptCount" o) λ attempts. parsed (record {
                job_id = id;
                code = int_value code;
                attempt_count = int_value attempts;
                message = text_value message;
                body = get "body" o;
              }))

  -- `SuccessNotification.toJson`.
  pub success_to_json : SuccessNotification HashId → Object
  success_to_json m = set "jobID" (text_node (ids.text m.job_id)) empty

  -- `SuccessNotification.fromJson`.
  pub success_from_json : Object → Parsed (SuccessNotification HashId)
  unfolding first_failure
  success_from_json o =
      unless
        (first_failure
          (lacks J o "jobID" ∷ nulls J o "jobID" ∷ other_than J is_textual o "jobID" ∷ []))
        (or_reject null_pointer (text_at J (get "jobID" o))
          λ id_text. or_reject bad_id (ids.parse id_text) λ id. parsed (record { job_id = id }))
