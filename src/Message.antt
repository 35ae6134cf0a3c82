-- ===== src/Message.antt =====
-- src/waterproof/message.h and message.cpp: requests, responses, their order and their JSON forms.
pub mod Order
pub mod Copies
pub mod Codec
use waterproof_wrapper.Base.{
  ℕ, Bool, not, ◌&&◌, ◌||◌, List, [], ◌∷◌, Option, none, some, Text, codes, ℤ, int_ltb, ltb, ◌>>=◌,
  get_or,
}
use waterproof_wrapper.Json.{Json}

pub data Verb : Type 0 where
  create destroy forward stop : Verb

pub record Request : Type 0 where
  pub verb : Verb
  pub instance_id : ℕ
  pub content : Text

pub data Status : Type 0 where
  failure success : Status

pub record Response : Type 0 where
  pub id : ℕ
  pub priority : ℤ
  pub status : Status
  pub verb : Verb
  pub instance_id : ℕ
  pub content : Text

-- `std::tie(priority_, rhs.id_) < std::tie(rhs.priority_, id_)`: the order of pairs.
unfoldable pub response_lt : Response → Response → Bool
response_lt lhs rhs =
    int_ltb lhs.priority rhs.priority
    || not (int_ltb rhs.priority lhs.priority) && ltb rhs.id lhs.id

unfoldable pub response_gt : Response → Response → Bool
unfolding response_lt
response_gt lhs rhs = response_lt rhs lhs

-- The tables of NLOHMANN_JSON_SERIALIZE_ENUM: the names, and the values at their places.
abbrev pub verb_names : List Text
verb_names = codes "create" ∷ codes "destroy" ∷ codes "forward" ∷ codes "stop" ∷ []

abbrev pub verb_values : List Verb
verb_values = Verb.create ∷ Verb.destroy ∷ Verb.forward ∷ Verb.stop ∷ []

abbrev pub status_names : List Text
status_names = codes "failure" ∷ codes "success" ∷ []

abbrev pub status_values : List Status
status_values = Status.failure ∷ Status.success ∷ []

abbrev pub verb_name : Verb → Text
verb_name Verb.create = codes "create"
verb_name Verb.destroy = codes "destroy"
verb_name Verb.forward = codes "forward"
verb_name Verb.stop = codes "stop"

abbrev pub status_name : Status → Text
status_name Status.failure = codes "failure"
status_name Status.success = codes "success"

module _ (j : Json) where
  open j use {Value, at, object, of_text, of_unsigned, get_text, get_unsigned, enum_place}

  abbrev pub verb_from_json : Value → Verb
  verb_from_json v = get_or verb_values (enum_place verb_names v) Verb.create

  abbrev pub status_from_json : Value → Status
  status_from_json v = get_or status_values (enum_place status_names v) Status.failure

  unfoldable pub request_from_json : Value → Option Request
  request_from_json v = do
    verb ← at v (codes "verb")
    instance_id ← at v (codes "instance_id")
    instance_id ← get_unsigned instance_id
    content ← at v (codes "content")
    content ← get_text content
    some (record { verb = verb_from_json verb; instance_id = instance_id; content = content })

  -- The response that is filled in keeps its id and priority.
  unfoldable pub response_from_json : Value → Response → Option Response
  response_from_json v r = do
    status ← at v (codes "status")
    verb ← at v (codes "verb")
    instance_id ← at v (codes "instance_id")
    instance_id ← get_unsigned instance_id
    content ← at v (codes "content")
    content ← get_text content
    some (record r {
      status = status_from_json status;
      verb = verb_from_json verb;
      instance_id = instance_id;
      content = content;
    })

  abbrev pub request_members : Request → List (Text × Value)
  request_members r =
      (codes "verb", of_text (verb_name r.verb))
      ∷ (codes "instance_id", of_unsigned r.instance_id)
      ∷ (codes "content", of_text r.content)
      ∷ []

  unfoldable pub request_to_json : Request → Value
  request_to_json r = object (request_members r)

  -- The id and the priority are not sent.
  abbrev pub response_members : Response → List (Text × Value)
  response_members r =
      (codes "status", of_text (status_name r.status))
      ∷ (codes "verb", of_text (verb_name r.verb))
      ∷ (codes "instance_id", of_unsigned r.instance_id)
      ∷ (codes "content", of_text r.content)
      ∷ []

  unfoldable pub response_to_json : Response → Value
  response_to_json r = object (response_members r)
