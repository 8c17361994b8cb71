-- ===== src/Transport/Wire.antt =====
-- src/transport.rs: `publish`, `subscribe` and `declare_liveliness`. The session is external: a put,
-- a subscriber and a token are what the source asks of it.
use flo.Base.{
  ℕ, Bool, Option, none, some, List, [], ◌∷◌, ◌++◌, Str, codes, contains_str, if◌then◌else◌,
  Outcome, ok, ◌>>=◌,
}
use flo.Rules.Floats.{Floats}
use flo.Rules.Json.{Value}
use flo.Rules.Model.{Qos}
use flo.Topic.Name.{Topic}
use flo.Topic.Pattern.{Pattern}
use flo.Topic.Builders.{liveliness_key}

pub data Envelope (F : Floats) : Type 0 where
  action : Qos → Value F → Envelope F
  signal : Value F → Envelope F
  raw_bytes : List ℕ → Envelope F

pub data Reliability : Type 0 where
  reliable best_effort : Reliability

pub data CongestionControl : Type 0 where
  block drop : CongestionControl

pub data Priority : Type 0 where
  interactive_high data_low : Priority

-- The knobs of a put that the source sets.
pub record Knobs : Type 0 where
  pub reliability : Reliability
  pub congestion_control : CongestionControl
  pub priority : Priority

-- A put on the session; one with no knobs has the session's defaults.
pub record Put : Type 0 where
  pub key : Str
  pub bytes : List ℕ
  pub knobs : Option Knobs

unfoldable pub knobs_of : Qos → Knobs
knobs_of Qos.reliable = record {
  reliability = Reliability.reliable;
  congestion_control = block;
  priority = interactive_high;
}
knobs_of Qos.best_effort = record {
  reliability = Reliability.best_effort;
  congestion_control = drop;
  priority = data_low;
}

abbrev pub put_bytes : Topic → Option Knobs → Option (List ℕ) → Option Put
put_bytes topic knobs none = none
put_bytes topic knobs (some bytes) =
    some (record { key = topic.text; bytes = bytes; knobs = knobs })

-- `none` where the payload cannot be serialised.
unfoldable pub publish :
    {F : Floats} → (Value F → Option (List ℕ)) → Topic → Envelope F → Option Put
unfolding knobs_of
publish to_vec topic (action qos payload) = put_bytes topic (some (knobs_of qos)) (to_vec payload)
publish to_vec topic (signal payload) = put_bytes topic none (to_vec payload)
publish to_vec topic (raw_bytes bytes) = put_bytes topic none (some bytes)

-- The two interfaces on which a subscriber can be declared.
pub data Subscription : Type 0 where
  samples liveliness : Str → Subscription

unfoldable pub subscribe : Pattern → Subscription
unfolding contains_str
subscribe pattern =
    if contains_str (codes "liveliness") pattern.text
    then liveliness pattern.text
    else samples pattern.text

-- The liveliness tokens that the transport holds.
pub record Transport : Type 0 where
  pub tokens : List Str

-- `declared` is whether the session accepts the token; `none` is the error of the session.
unfoldable pub declare_liveliness {ℓ} :
    {E : Type ℓ} → Bool → Transport → Str → Outcome E (Option Transport)
declare_liveliness declared transport robot_id = do
  key ← liveliness_key robot_id
  ok (if declared then some (record { tokens = transport.tokens ++ (key.text ∷ []) }) else none)
