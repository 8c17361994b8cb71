-- ===== src/Semantic/Action.antt =====
-- src/semantic.rs: action verbs, validated and compiled.
use flo.Base.{
  ℕ, ◌+◌, Bool, true, false, not, ◌&&◌, Option, none, some, Str, codes, is_some, is_empty, nat_eq,
  ltb, if◌then◌else◌, Outcome, ok, err, panic, ◌>>=◌, map_err,
}
use flo.Rules.Floats.{Floats}
use flo.Rules.Json.{Value, null, bool, number, string, array, object, Fields, end, field}
use flo.Rules.Model.{Action, Qos, reliable}
use flo.Topic.Name
use flo.Topic.Name.{Topic}
use flo.Topic.Builders.{robot_local, stop_cmd}
use flo.Semantic.Model.{
  no_action_verb, non_primitive_payload, invalid_distance, invalid_topic, SemanticError, error,
  SemanticAction, ActionSpec, estop, slow_to, resume, raw,
}

abbrev one_if : Bool → ℕ
one_if true = 1
one_if false = 0

module _ {F : Floats} where
  unfoldable pub is_leaf : Value F → Bool
  is_leaf (bool b) = true
  is_leaf (number n) = true
  is_leaf (string s) = true
  is_leaf _ = false

  unfoldable pub all_leaves : Fields F → Bool
  all_leaves end = true
  all_leaves (field k v fs) = is_leaf v && all_leaves fs

  unfoldable pub is_primitive : Value F → Bool
  unfolding is_leaf all_leaves
  is_primitive (object m) = all_leaves m
  is_primitive null = false
  is_primitive (array xs) = false
  is_primitive v = is_leaf v

  -- How many of the four verbs an action names.
  abbrev pub verbs : SemanticAction F → ℕ
  verbs a = one_if a.estop + one_if (is_some a.slow_to) + one_if a.resume + one_if (is_some a.topic)

  abbrev pub bad_payload : Option (Value F) → Bool
  bad_payload none = false
  bad_payload (some v) = not (is_primitive v)

  abbrev payload_or_null : Option (Value F) → Value F
  payload_or_null none = null
  payload_or_null (some v) = v

  verb_topic : Option Str → Option (Value F) → Outcome SemanticError (ActionSpec F)
  verb_topic none payload = panic
  verb_topic (some topic) payload =
      if is_empty topic then err (error invalid_topic) else ok (raw topic (payload_or_null payload))

  verb_slow :
      Option F.F64 → Outcome SemanticError (ActionSpec F) → Outcome SemanticError (ActionSpec F)
  verb_slow none otherwise = otherwise
  verb_slow (some v) otherwise =
      if not (F.is_finite v) then err (error invalid_distance) else ok (slow_to v)

  unfoldable pub try_from_action : SemanticAction F → Outcome SemanticError (ActionSpec F)
  unfolding verb_topic verb_slow
  try_from_action a =
      if nat_eq (verbs a) 0
      then err (error no_action_verb)
      else if ltb 1 (verbs a)
      then err (error no_action_verb)
      else if bad_payload a.payload
      then err (error non_primitive_payload)
      else if a.estop
      then ok estop
      else if a.resume
      then ok resume
      else verb_slow a.slow_to (verb_topic a.topic a.payload)

  -- `json!` of a float.
  abbrev json_float : Option F.Number → Value F
  json_float none = null
  json_float (some n) = number n

  abbrev single : Str → Value F → Value F
  single k v = object (field k v end)

  abbrev made : Str → Qos → Value F → Action F
  made topic qos payload = record { topic = topic; qos = qos; payload = payload }

  unfoldable pub compile_action_from_spec :
      ActionSpec F → SemanticAction F → Str → Outcome SemanticError (Action F)
  compile_action_from_spec estop original robot_id = do
    topic ← stop_cmd (codes "fleet")
    ok (made topic.text reliable (single (codes "stop") (bool true)))
  compile_action_from_spec resume original robot_id = do
    topic ← robot_local robot_id (codes "drive")
    ok (made topic.text reliable (single (codes "resume") (bool true)))
  compile_action_from_spec (slow_to v) original robot_id = do
    topic ← robot_local robot_id (codes "drive")
    ok (made topic.text original.qos (single (codes "speed_mps") (json_float (F.from_f64 v))))
  compile_action_from_spec (raw topic payload) original robot_id = do
    validated ← map_err (λ e. error invalid_topic) (Name.try_new topic)
    ok (made validated.text original.qos payload)
