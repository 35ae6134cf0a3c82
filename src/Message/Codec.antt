-- ===== src/Message/Codec.antt =====
-- The JSON forms of requests and responses, written and read back.
use waterproof_wrapper.Base.{
  ℕ, ◌≡◌, ◌≢◌, refl, List, [], ◌∷◌, some, Text, codes, text_eq_miss, All, suc,
}
use waterproof_wrapper.Base.Bits.{IsU32}
use waterproof_wrapper.Json.Fields.{at-object}
use waterproof_wrapper.Json.{Json, IsJson, place_from}
use waterproof_wrapper.Message.{
  Verb, Status, Request, Response, request_from_json, request_to_json, response_from_json,
  response_to_json, request_members, response_members, verb_name, status_name, verb_names,
  verb_from_json, status_from_json,
}

module _ (j : Json) (laws : IsJson j) where
  open laws use {at_first, at_later, get_text-of_text, get_unsigned-of_unsigned, enum_place-of_text}
  open j use {of_text, of_unsigned}

  verb_from_json-name : (v : Verb) → verb_from_json j (of_text (verb_name v)) ≡ v
  verb_from_json-name Verb.create = rw enum_place-of_text
  verb_from_json-name Verb.destroy = rw enum_place-of_text
  verb_from_json-name Verb.forward = rw enum_place-of_text
  verb_from_json-name Verb.stop = rw enum_place-of_text

  status_from_json-name : (s : Status) → status_from_json j (of_text (status_name s)) ≡ s
  status_from_json-name Status.failure = rw enum_place-of_text
  status_from_json-name Status.success = rw enum_place-of_text

  -- A request whose instance id fits 32 bits is read back from its JSON form.
  pub request_from_json-to_json :
      (r : Request) → IsU32 r.instance_id → request_from_json j (request_to_json j r) ≡ some r
  unfolding request_from_json request_to_json
  request_from_json-to_json r h =
      let ms = request_members j r in
      rw (
        at-object j laws ms (codes "verb") _ refl,
        at-object j laws ms (codes "instance_id") _ refl,
        at-object j laws ms (codes "content") _ refl,
        get_unsigned-of_unsigned r.instance_id h,
        get_text-of_text r.content,
        verb_from_json-name r.verb,
      )

  -- A response is read back from its JSON form into any response `old`, but for the id and the
  -- priority: those stay the ones of `old`. The instance id must fit 32 bits.
  pub response_from_json-to_json :
      (r old : Response)
      → IsU32 r.instance_id
      → response_from_json j (response_to_json j r) old
        ≡ some (record r { id = old.id; priority = old.priority })
  unfolding response_from_json response_to_json
  response_from_json-to_json r old h =
      let ms = response_members j r in
      rw (
        at-object j laws ms (codes "status") _ refl,
        at-object j laws ms (codes "verb") _ refl,
        at-object j laws ms (codes "instance_id") _ refl,
        at-object j laws ms (codes "content") _ refl,
        get_unsigned-of_unsigned r.instance_id h,
        get_text-of_text r.content,
        status_from_json-name r.status,
        verb_from_json-name r.verb,
      )

  unknown_place :
      (names : List Text) (i : ℕ) (t : Text) → All (λ s. s ≢ t) names → place_from i names t ≡ 0
  unknown_place [] i t h = refl
  unknown_place (s ∷ ss) i t h = rw (text_eq_miss s t h.0) (unknown_place ss (suc i) t h.1)

  -- A request document with members `verb`, `instance_id` and `content`, of which the verb is a text
  -- that names no verb, is read as a create request.
  pub request_from_json_unknown_verb :
      (doc : j.Value) (name content : Text) (id : ℕ)
      → All (λ s. s ≢ name) verb_names
      → IsU32 id
      → j.at doc (codes "verb") ≡ some (of_text name)
      → j.at doc (codes "instance_id") ≡ some (of_unsigned id)
      → j.at doc (codes "content") ≡ some (of_text content)
      → request_from_json j doc
        ≡ some (record { verb = Verb.create; instance_id = id; content = content })
  unfolding request_from_json
  request_from_json_unknown_verb doc name content id h hid v i c = rw (
    v,
    i,
    c,
    get_unsigned-of_unsigned id hid,
    get_text-of_text content,
    enum_place-of_text verb_names name,
    unknown_place verb_names 0 name h,
  )
