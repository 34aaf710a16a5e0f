-- ===== src/Messages/Transport.antt =====
-- Messages that are written, sent as text and read again.
use lib_rabbit_job_queue.Common.{◌≡◌, ◌≢◌, refl, ap, ◌∙◌, Option, none, some, String, arith}
use lib_rabbit_job_queue.Common.Int.{ℤ, IsInt}
use lib_rabbit_job_queue.Messages.Libraries.{Jackson, JacksonLaws, Texts, TextsLaws}
use lib_rabbit_job_queue.Messages.{
  parsed, SuccessNotification, success_to_json, success_from_json, JobDispatch, dispatch_to_json,
  dispatch_from_json, ErrorNotification, error_to_json, error_from_json, node_or_null, pojo_or_null,
  text_or_null,
}

module _ {Node Object : Type 0} (J : Jackson Node Object) (laws : JacksonLaws J) where
  sent_text :
      (k : String) (o : Object) {s : String}
      → J.get k o ≡ some (J.text_node s)
      → J.get k (J.sent o) ≡ some (J.text_node s)
  sent_text k o {s} e = laws.get-sent k o e ∙ ap some (laws.wire-text s)

  sent_int :
      (k : String) (o : Object) {i : ℤ}
      → IsInt i
      → J.get k o ≡ some (J.int_node i)
      → J.get k (J.sent o) ≡ some (J.int_node i)
  sent_int k o {i} h e = laws.get-sent k o e ∙ ap some (laws.wire-int i h)

  -- What arrives of a body: a missing one arrives as the node for null.
  abbrev pub arrived : Option Node → Node
  arrived none = J.null_node
  arrived (some n) = J.wire n

  wire_pojo : (b : Option Node) → J.wire (pojo_or_null J b) ≡ arrived b
  wire_pojo none = laws.wire-null
  wire_pojo (some n) = laws.wire-pojo n

  wire_node : (b : Option Node) → J.wire (node_or_null J b) ≡ arrived b
  wire_node none = laws.wire-null
  wire_node (some n) = refl

  wire_text : (m : Option String) → J.wire (text_or_null J m) ≡ text_or_null J m
  wire_text none = laws.wire-null
  wire_text (some s) = laws.wire-text s

  value_of_text : (m : Option String) → J.text_value (text_or_null J m) ≡ m
  value_of_text none = laws.text_of_null
  value_of_text (some s) = laws.text_of_text s

  module _ {HashId : Type 0} (ids : Texts HashId) (ids_laws : TextsLaws ids) where
    -- A success notification that is sent arrives as it was.
    success_from_json-sent :
        (m : SuccessNotification HashId)
        → success_from_json J ids (J.sent (success_to_json J ids m)) ≡ parsed m
    unfolding success_from_json success_to_json
    success_from_json-sent m =
        let id =
          sent_text "jobID" (success_to_json J ids m)
            (laws.get-set "jobID" "jobID" (J.text_node (ids.text m.job_id)) J.empty) in
        rw
          (
            success_from_json, id, laws.null_text, laws.textual, laws.text_of_text,
            ids_laws.parse-text,
          )
          refl

    -- An error notification whose numbers are an `Int` each arrives as it was when it is sent, but for
    -- its body, which arrives as Jackson reads it, and as the node for null where there was none.
    pub error_from_json-sent :
        (e : ErrorNotification HashId Node)
        → IsInt e.code
        → IsInt e.attempt_count
        → error_from_json J ids (J.sent (error_to_json J ids e))
          ≡ parsed (record e { body = some (arrived e.body) })
    unfolding error_from_json error_to_json
    error_from_json-sent e c a =
        let o = error_to_json J ids e in
        let id = sent_text "jobID" o {s = ids.text e.job_id} (simp laws.get-set) in
        let code = sent_int "code" o c (simp laws.get-set) in
        let count = sent_int "attemptCount" o a (simp laws.get-set) in
        let message =
          laws.get-sent "message" o {n = text_or_null J e.message} (simp laws.get-set)
          ∙ ap some (wire_text e.message) in
        let body =
          laws.get-sent "body" o {n = node_or_null J e.body} (simp laws.get-set)
          ∙ ap some (wire_node e.body) in
        simp (
          id,
          code,
          count,
          message,
          body,
          laws.null_text,
          laws.null_int,
          laws.textual,
          laws.integral,
          laws.text_of_text,
          ids_laws.parse-text,
          value_of_text e.message,
          laws.int_of_int e.code c,
          laws.int_of_int e.attempt_count a,
        )

  module _ {HashId Time : Type 0} (ids : Texts HashId) (ids_laws : TextsLaws ids)
      (times : Texts Time) (times_laws : TextsLaws times) where
    -- A job dispatch whose number of attempts is an `Int` arrives as it was when it is sent, but for
    -- its body, which arrives as Jackson reads it, and as the node for null where there was none.
    pub dispatch_from_json-sent :
        (d : JobDispatch HashId Time Node)
        → IsInt d.attempt_count
        → dispatch_from_json J ids times (J.sent (dispatch_to_json J ids times d))
          ≡ parsed (record d { body = some (arrived d.body) })
    unfolding dispatch_from_json dispatch_to_json
    dispatch_from_json-sent d a =
        let o = dispatch_to_json J ids times d in
        let id = sent_text "jobID" o {s = ids.text d.job_id} (simp laws.get-set) in
        let type = sent_text "type" o {s = d.type} (simp laws.get-set) in
        let time = sent_text "dispatched" o {s = times.text d.dispatched} (simp laws.get-set) in
        let count = sent_int "attemptCount" o a (simp laws.get-set) in
        let body =
          laws.get-sent "body" o {n = pojo_or_null J d.body} (simp laws.get-set)
          ∙ ap some (wire_pojo d.body) in
        simp (
          id,
          type,
          time,
          count,
          body,
          laws.null_text,
          laws.null_int,
          laws.textual,
          laws.int d.attempt_count a,
          laws.text_of_text,
          ids_laws.parse-text,
          times_laws.parse-text,
          laws.int_of_int d.attempt_count a,
        )

-- An error notification may have no message, but no object without a message field is read as one.
error_from_json-no_message :
    {Node Object HashId : Type 0} (J : Jackson Node Object) (ids : Texts HashId) (o : Object)
    → J.get "message" o ≡ none
    → (e : ErrorNotification HashId Node) → error_from_json J ids o ≢ parsed e
unfolding error_from_json
error_from_json-no_message J ids o h e f = ground arith
