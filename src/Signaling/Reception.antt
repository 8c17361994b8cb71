-- ===== src/Signaling/Reception.antt =====
-- src/signaling.rs with src/transport.rs: the receiver's subscriptions, and what reaches its handler.
use flo.Base.{
  Bool, ◌≡◌, refl, true, false, Option, some, List, [], ◌∷◌, ◌++◌, Str, codes, Lacks, is_empty,
  contains_str, starts_with, arith, Outcome, ok, if◌then◌else◌,
}
use flo.Rules.Floats.{Floats}
use flo.Topic.Words.{IsChunk, contains_str-slash}
use flo.Topic.Signals.{signal_offer_pattern_lem, signal_answer_pattern_lem, signal_ice_pattern_lem}
use flo.Transport.Wire.{Put, liveliness, subscribe}
use flo.Signaling.Messages.{
  IceCandidate, offer, answer, Serde, Call, on_offer, on_answer, on_ice, Receiver, publish_offer,
  publish_answer, publish_ice, run_signal_receiver, dispatch,
}
use flo.Signaling.Delivery.{IsPlain, IsStar, RoundTrips, samples_of, offer_lem, answer_lem, ice_lem}

abbrev tokens_of : Str → Receiver
tokens_of id = record {
  offers = liveliness (codes "robot/*/signal/" ++ (id ++ codes "/offer"));
  answers = liveliness (codes "robot/*/signal/" ++ (id ++ codes "/answer"));
  ice = liveliness (codes "robot/*/signal/" ++ (id ++ codes "/ice"));
}

pattern_lem :
    (id verb : Str)
    → contains_str (codes "liveliness") verb ≡ false
    → contains_str (codes "liveliness") (codes "robot/*/signal/" ++ (id ++ b'/' ∷ verb))
      ≡ contains_str (codes "liveliness") id
unfolding contains_str starts_with
pattern_lem id verb h = ground (arith, contains_str-slash b'l' (codes "iveliness") id verb refl)

pub run_signal_receiver_lem {ℓ} :
    {E : Type ℓ} (id : Str)
    → is_empty id ≡ false
    → Lacks b'/' id
    → run_signal_receiver {E = E} id
      ≡ ok (if contains_str (codes "liveliness") id then tokens_of id else samples_of id)
unfolding run_signal_receiver subscribe
run_signal_receiver_lem {E = E} id full h = ground (
  arith,
  signal_offer_pattern_lem {E = E} id full h,
  signal_answer_pattern_lem {E = E} id full h,
  signal_ice_pattern_lem {E = E} id full h,
  pattern_lem id (codes "offer") refl,
  pattern_lem id (codes "answer") refl,
  pattern_lem id (codes "ice") refl,
)

module _ {ℓ} {E : Type ℓ} {F : Floats} (serde : Serde F) (matches : Str → Str → Bool)
    (star : IsStar matches) (me peer : Str) where
  -- A publication succeeds, and the peer's receiver makes of it exactly these calls.
  abbrev pub Brings : Outcome E (Option Put) → List Call → Type ℓ
  Brings published calls =
      (put : Put) × (receiver : Receiver) × (published ≡ ok (some put))
      × (run_signal_receiver {E = E} peer ≡ ok receiver)
      × (dispatch serde matches receiver put ≡ calls)

  -- Between two robots whose ids are chunks of a key with no wildcard, the sender's not beginning with
  -- `@` and the peer's without the word `liveliness`, where keys are matched as zenoh documents it and
  -- the messages are written and read back by serde: each offer, answer and candidate that one
  -- publishes to the other brings exactly one call of the peer's handler, on the method of its kind,
  -- with the sender's id and the very message or candidate.
  pub signal_delivery :
      (sdp : Str) (ice : List IceCandidate) (candidate : IceCandidate)
      → RoundTrips serde (record { sdp = sdp; kind = offer; from = me; to = peer; ice = ice })
      → RoundTrips serde (record { sdp = sdp; kind = answer; from = me; to = peer; ice = ice })
      → RoundTrips serde
          (record { sdp = []; kind = offer; from = me; to = peer; ice = candidate ∷ [] })
      → IsPlain me
      → IsChunk peer
      → contains_str (codes "liveliness") peer ≡ false
      → Brings
          (publish_offer serde me peer sdp ice)
          (on_offer me (record { sdp = sdp; kind = offer; from = me; to = peer; ice = ice }) ∷ [])
        × Brings (publish_answer serde me peer sdp ice) (
            on_answer me (record { sdp = sdp; kind = answer; from = me; to = peer; ice = ice })
            ∷ [])
        × Brings (publish_ice serde me peer candidate) (on_ice me candidate ∷ [])
  signal_delivery sdp ice candidate o a i proper proper' deaf =
      let received : run_signal_receiver {E = E} peer ≡ ok (samples_of peer) =
        rw (run_signal_receiver_lem {E = E} peer proper'.0 proper'.1, deaf) refl in
      let (p, e, k) = offer_lem serde matches star me peer proper proper' sdp ice o in
      let (p', e', k') = answer_lem serde matches star me peer proper proper' sdp ice a in
      let (p'', e'', k'') = ice_lem serde matches star me peer proper proper' candidate i in
      (
        (p, samples_of peer, e, received, k),
        (p', samples_of peer, e', received, k'),
        (p'', samples_of peer, e'', received, k''),
      )

module _ {ℓ} {E : Type ℓ} {F : Floats} (serde : Serde F) (matches : Str → Str → Bool) where
  -- A robot whose id holds the word `liveliness` is deaf: its three subscriptions go to the liveliness
  -- interface, and no put brings a call of its handler.
  pub run_signal_receiver_deaf :
      (peer : Str) (put : Put)
      → is_empty peer ≡ false
      → Lacks b'/' peer
      → contains_str (codes "liveliness") peer ≡ true
      → (receiver : Receiver) × (run_signal_receiver {E = E} peer ≡ ok receiver)
        × (dispatch serde matches receiver put ≡ [])
  unfolding dispatch
  run_signal_receiver_deaf peer put full h word =
      (tokens_of peer, rw (run_signal_receiver_lem {E = E} peer full h, word) refl, refl)
