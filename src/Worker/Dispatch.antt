-- ===== src/Worker/Dispatch.antt =====
-- apps/worker/src/outbox/dispatch.ts and handlers/identity.ts: whether a record is handled. The
-- logs and the session's settings, which are reset in every case, are left out.
use Prim.Native.Char.{code}
use Prim.Native.String.{String}
use text.Mathlib.Text
use slotnova.Base.{
  ℕ, Bool, true, false, not, ◌&&◌, ◌||◌, Option, none, some, List, [], ◌∷◌, leb, ◌==◌,
  if◌then◌else◌,
}
use slotnova.Base.Lists.{all}
use slotnova.Base.Outcome.{Result, err, throw_if, ◌>>◌, for_each}

-- A field's value in a payload: a text, or anything else.
pub data FieldValue : Type 0 where
  text_value : String → FieldValue
  other_value : FieldValue

-- The payload that a record carries: an object, or another JSON value.
pub data Payload : Type 0 where
  object : List (String × FieldValue) → Payload
  not_object : Payload

pub record OutboxRecord : Type 0 where
  pub id : ℕ
  pub workspace_id : Option ℕ
  pub event_name : String
  pub event_version : ℕ
  pub payload : Payload
  pub attempts : ℕ

pub data WorkerError : Type 0 where
  request_id_missing unsupported_event : WorkerError
  invalid_field : String → WorkerError

abbrev codes : String → List ℕ
codes String.[] = []
codes (String.◌∷◌ c s) = code c ∷ codes s

-- What `trim` removes: the white space and the line ends of ECMAScript.
abbrev is_white_space : ℕ → Bool
is_white_space c =
    (leb 9 c && leb c 13)
    || ((c == 32)
        || ((c == 160)
            || ((c == 5760)
                || ((leb 8192 c && leb c 8202)
                    || ((c == 8232)
                        || ((c == 8233)
                            || ((c == 8239)
                                || ((c == 8287) || ((c == 12288) || (c == 65279))))))))))

-- `!value.trim()`.
abbrev pub is_blank : String → Bool
is_blank s = all is_white_space (codes s)

abbrev pub get_field : String → List (String × FieldValue) → Option FieldValue
get_field name [] = none
get_field name ((n, v) ∷ fields) =
    let rest = get_field name fields in if Text.◌==◌ n name then some v else rest

abbrev pub fields_of : Payload → List (String × FieldValue)
fields_of (object fields) = fields
fields_of not_object = []

abbrev pub request_id_of : Option FieldValue → Option String
request_id_of none = none
request_id_of (some other_value) = none
request_id_of (some (text_value value)) = if is_blank value then none else some value

-- `eventRequestId`.
abbrev pub event_request_id : Payload → Option String
event_request_id payload = request_id_of (get_field "requestId" (fields_of payload))

abbrev pub Handler : Type 0
Handler = OutboxRecord → Result WorkerError (Unit {0})

-- `dispatch`: a record whose payload has no request id is not handled.
abbrev pub dispatched :
    Option String → Result WorkerError (Unit {0}) → Result WorkerError (Unit {0})
dispatched none handled = err request_id_missing
dispatched (some request_id) handled = handled

unfoldable pub dispatch : Handler → OutboxRecord → Result WorkerError (Unit {0})
dispatch handler r = dispatched (event_request_id r.payload) (handler r)

-- The fields that each event of the catalogue has.
abbrev pub required_fields : String → Option (List String)
required_fields name =
    if Text.◌==◌ name "invitation.issued"
    then some ("invitationId" ∷ "role" ∷ [])
    else (if Text.◌==◌ name "invitation.accepted"
        then some ("invitationId" ∷ "membershipId" ∷ [])
        else (if Text.◌==◌ name "membership.created"
            then some ("membershipId" ∷ "role" ∷ [])
            else none))

abbrev is_filled_text : Option FieldValue → Bool
is_filled_text (some (text_value String.[])) = false
is_filled_text (some (text_value (String.◌∷◌ c s))) = true
is_filled_text _ = false

abbrev check_field : Payload → String → Result WorkerError (Unit {0})
check_field payload name =
    throw_if (not (is_filled_text (get_field name (fields_of payload)))) (invalid_field name)

abbrev check_fields : ℕ → Payload → Option (List String) → Result WorkerError (Unit {0})
check_fields version payload none = err unsupported_event
check_fields version payload (some required) =
    throw_if (not (version == 1)) unsupported_event >> for_each (check_field payload) required

-- `handleIdentityEvent`.
unfoldable pub handle_identity_event : Handler
handle_identity_event r = check_fields r.event_version r.payload (required_fields r.event_name)
