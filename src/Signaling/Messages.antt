-- ===== src/Signaling/Messages.antt =====
-- src/signaling.rs: the messages, their publication, and the dispatch to a handler. The serialisation is
-- a parameter; which keys a pattern takes is zenoh's, a parameter too.
use flo.Base.{
  ℕ, Bool, false, Option, none, some, List, [], ◌∷◌, ◌++◌, Str, map, Outcome, ok, ◌>>=◌, expect,
  if◌then◌else◌,
}
use flo.Rules.Floats.{Floats}
use flo.Rules.Json.{Value}
use flo.Topic.Name.{Topic}
use flo.Topic.Pattern
use flo.Topic.Pattern.{Pattern}
use flo.Topic.Builders.{
  signal_presence_key, signal_offer_key, signal_answer_key, signal_ice_key, signal_offer_pattern,
  signal_answer_pattern, signal_ice_pattern, signal_presence_pattern,
}
use flo.Transport.Wire.{signal, Put, publish, Subscription, samples, liveliness, subscribe}

pub record IceCandidate : Type 0 where
  pub candidate : Str
  pub sdp_mid : Option Str
  pub mline_index : Option ℕ

pub data SignalKind : Type 0 where
  offer : SignalKind
  answer : SignalKind

pub record SignalMessage : Type 0 where
  pub sdp : Str
  pub kind : SignalKind
  pub from : Str
  pub to : Str
  pub ice : List IceCandidate

pub record Presence : Type 0 where
  pub id : Str
  pub streams : List Str

-- `serde_json`
pub record Serde (F : Floats) : Type 0 where
  pub to_value : SignalMessage → Option (Value F)
  pub presence_value : Presence → Option (Value F)
  pub to_vec : Value F → Option (List ℕ)
  pub from_slice : List ℕ → Option SignalMessage
  pub presence_from_slice : List ℕ → Option Presence

-- What a handler is called with.
pub data Call : Type 0 where
  on_offer : Str → SignalMessage → Call
  on_answer : Str → SignalMessage → Call
  on_ice : Str → IceCandidate → Call

-- The three subscriptions of `run_signal_receiver`, each with its loop.
pub record Receiver : Type 0 where
  pub offers : Subscription
  pub answers : Subscription
  pub ice : Subscription

unfoldable pub run_signal_receiver {ℓ} : {E : Type ℓ} → Str → Outcome E Receiver
unfolding subscribe
run_signal_receiver robot_id = do
  offers ← signal_offer_pattern robot_id
  answers ← signal_answer_pattern robot_id
  ice ← signal_ice_pattern robot_id
  ok (record { offers = subscribe offers; answers = subscribe answers; ice = subscribe ice })

unfoldable pub subscribe_presence {ℓ} : {E : Type ℓ} → Outcome E Subscription
unfolding subscribe Pattern.try_new
subscribe_presence = do
  pattern ← expect (Pattern.try_new signal_presence_pattern)
  ok (subscribe pattern)

module _ {F : Floats} (serde : Serde F) where
  -- `none` where the session refuses the payload.
  abbrev send : Topic → Option (Value F) → Option Put
  send key none = none
  send key (some value) = publish serde.to_vec key (signal value)

  unfoldable pub publish_presence {ℓ} : {E : Type ℓ} → Str → List Str → Outcome E (Option Put)
  unfolding publish
  publish_presence robot_id streams = do
    key ← signal_presence_key robot_id
    ok (send key (serde.presence_value (record { id = robot_id; streams = streams })))

  unfoldable pub put_signal : Topic → SignalKind → Str → Str → Str → List IceCandidate → Option Put
  unfolding publish
  put_signal key kind from to sdp ice =
      send key (serde.to_value (record { sdp = sdp; kind = kind; from = from; to = to; ice = ice }))

  unfoldable pub publish_offer {ℓ} :
      {E : Type ℓ} → Str → Str → Str → List IceCandidate → Outcome E (Option Put)
  unfolding put_signal
  publish_offer robot_id peer_id sdp ice = do
    key ← signal_offer_key robot_id peer_id
    ok (put_signal key offer robot_id peer_id sdp ice)

  unfoldable pub publish_answer {ℓ} :
      {E : Type ℓ} → Str → Str → Str → List IceCandidate → Outcome E (Option Put)
  unfolding put_signal
  publish_answer robot_id peer_id sdp ice = do
    key ← signal_answer_key robot_id peer_id
    ok (put_signal key answer robot_id peer_id sdp ice)

  unfoldable pub publish_ice {ℓ} : {E : Type ℓ} → Str → Str → IceCandidate → Outcome E (Option Put)
  unfolding put_signal
  publish_ice robot_id peer_id ice = do
    key ← signal_ice_key robot_id peer_id
    ok (put_signal key offer robot_id peer_id [] (ice ∷ []))

  unfoldable pub parse_signal : List ℕ → Option SignalMessage
  parse_signal bytes = serde.from_slice bytes

  abbrev pub offered : Option SignalMessage → List Call
  offered none = []
  offered (some msg) = on_offer msg.from msg ∷ []

  abbrev pub answered : Option SignalMessage → List Call
  answered none = []
  answered (some msg) = on_answer msg.from msg ∷ []

  abbrev pub trickled : Option SignalMessage → List Call
  trickled none = []
  trickled (some msg) = map (on_ice msg.from) msg.ice

  -- `matches` says which keys a pattern takes; no put is a sample of a liveliness subscriber.
  module _ (matches : Str → Str → Bool) where
    abbrev pub takes : Subscription → Put → Bool
    takes (samples pattern) put = matches pattern put.key
    takes (liveliness pattern) put = false

    -- The calls that a put brings to the handler, by the three loops.
    unfoldable pub dispatch : Receiver → Put → List Call
    unfolding parse_signal
    dispatch receiver put =
        (if takes receiver.offers put then offered (parse_signal put.bytes) else [])
        ++ ((if takes receiver.answers put then answered (parse_signal put.bytes) else [])
            ++ (if takes receiver.ice put then trickled (parse_signal put.bytes) else []))

    -- The peers that a put brings to the presence handler.
    abbrev discovered : Option Presence → List Presence
    discovered none = []
    discovered (some p) = p ∷ []

    unfoldable pub dispatch_presence : Subscription → Put → List Presence
    dispatch_presence subscription put =
        if takes subscription put then discovered (serde.presence_from_slice put.bytes) else []
