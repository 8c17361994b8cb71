-- ===== src/Signaling/Delivery.antt =====
-- src/signaling.rs: what one robot publishes for another, and which of its subscriptions take it.
use flo.Base.{
  ℕ, ◌≡◌, refl, Bool, false, none, some, List, [], ◌∷◌, ◌++◌, Str, codes, starts_with, str_eq,
  arith, ok, All, ◌∙◌,
}
use flo.Rules.Floats.{Floats}
use flo.Rules.Json.{Value}
use flo.Topic.Words.{IsChunk}
use flo.Topic.Validity.{signal_offer_key_lem, signal_answer_key_lem, signal_ice_key_lem}
use flo.Transport.Wire.{Put, publish, samples}
use flo.Signaling.Messages.{
  IceCandidate, offer, answer, SignalMessage, Serde, on_offer, on_answer, on_ice, Receiver,
  publish_offer, publish_answer, publish_ice, put_signal, parse_signal, dispatch,
}

-- A chunk that a star takes: one that does not begin with `@`, which would make it verbatim.
abbrev pub IsPlain : Str → Type 0
IsPlain s = IsChunk s × (starts_with (codes "@") s ≡ false)

-- The chunks with slashes between them.
abbrev pub path : List Str → Str
path [] = []
path (c ∷ []) = c
path (c ∷ d ∷ cs) = c ++ b'/' ∷ path (d ∷ cs)

-- As zenoh documents its key expressions: under `robot`, a star takes one plain chunk, and where no
-- chunk is a wildcard only a key of the same text is taken.
abbrev pub IsStar : (Str → Str → Bool) → Type 0
IsStar matches =
    (chunk a k : Str) (after key : List Str)
    → IsPlain chunk
    → All IsChunk (a ∷ after)
    → All IsChunk (k ∷ key)
    → matches (path (codes "robot" ∷ codes "*" ∷ a ∷ after))
        (path (codes "robot" ∷ chunk ∷ k ∷ key))
      ≡ str_eq (path (a ∷ after)) (path (k ∷ key))

str_eq-append : (p s t : Str) → str_eq (p ++ s) (p ++ t) ≡ str_eq s t
unfolding str_eq
str_eq-append [] s t = refl
str_eq-append (c ∷ p) s t = ground (arith, str_eq-append p s t)

module _ (matches : Str → Str → Bool) (star : IsStar matches) (me peer : Str) (proper : IsPlain me)
    (proper' : IsChunk peer) where
  -- Which of the three subscriptions of the peer takes a key of ours.
  verb_lem :
      (verb key : Str)
      → IsChunk verb
      → IsChunk key
      → matches
          (codes "robot/*/signal/" ++ (peer ++ b'/' ∷ verb))
          (codes "robot/" ++ (me ++ (codes "/signal/" ++ (peer ++ b'/' ∷ key))))
        ≡ str_eq verb key
  unfolding str_eq
  verb_lem verb key v k =
      let is_chunk : IsChunk (codes "signal") = (refl, refl, refl, refl, refl, refl) in
      star me (codes "signal") (codes "signal") (peer ∷ verb ∷ []) (peer ∷ key ∷ []) proper
        (is_chunk, (proper', (v, tt))) (is_chunk, (proper', (k, tt)))
      ∙ str_eq-append peer (b'/' ∷ verb) (b'/' ∷ key)

-- A message is written and read back.
abbrev pub RoundTrips : {F : Floats} → Serde F → SignalMessage → Type 0
RoundTrips {F = F} serde m =
    (v : Value F) × (bytes : List ℕ) × (serde.to_value m ≡ some v)
    × (serde.to_vec v ≡ some bytes)
    × (serde.from_slice bytes ≡ some m)

abbrev pub samples_of : Str → Receiver
samples_of id = record {
  offers = samples (codes "robot/*/signal/" ++ (id ++ codes "/offer"));
  answers = samples (codes "robot/*/signal/" ++ (id ++ codes "/answer"));
  ice = samples (codes "robot/*/signal/" ++ (id ++ codes "/ice"));
}

module _ {ℓ} {E : Type ℓ} {F : Floats} (serde : Serde F) (matches : Str → Str → Bool)
    (star : IsStar matches) (me peer : Str) (proper : IsPlain me) (proper' : IsChunk peer) where
  pub offer_lem :
      (sdp : Str) (ice : List IceCandidate)
      → RoundTrips serde (record { sdp = sdp; kind = offer; from = me; to = peer; ice = ice })
      → (put : Put) × (publish_offer serde {E = E} me peer sdp ice ≡ ok (some put))
        × (dispatch serde matches (samples_of peer) put
            ≡ on_offer me (record { sdp = sdp; kind = offer; from = me; to = peer; ice = ice })
              ∷ [])
  unfolding publish_offer put_signal publish dispatch parse_signal str_eq
  offer_lem sdp ice (v, bytes, e, k, r) = (
    record {
      key = codes "robot/" ++ (me ++ (codes "/signal/" ++ (peer ++ codes "/offer")));
      bytes = bytes;
      knobs = none;
    },
    ground (arith, signal_offer_key_lem {E = E} me peer proper.0.1 proper'.1, e, k),
    ground (
      arith,
      r,
      verb_lem matches star me peer proper proper' (codes "offer") (codes "offer")
          (refl, refl, refl, refl, refl, refl) (refl, refl, refl, refl, refl, refl),
      verb_lem matches star me peer proper proper' (codes "answer") (codes "offer")
          (refl, refl, refl, refl, refl, refl) (refl, refl, refl, refl, refl, refl),
      verb_lem matches star me peer proper proper' (codes "ice") (codes "offer")
          (refl, refl, refl, refl, refl, refl) (refl, refl, refl, refl, refl, refl),
    ),
  )

  pub answer_lem :
      (sdp : Str) (ice : List IceCandidate)
      → RoundTrips serde (record { sdp = sdp; kind = answer; from = me; to = peer; ice = ice })
      → (put : Put) × (publish_answer serde {E = E} me peer sdp ice ≡ ok (some put))
        × (dispatch serde matches (samples_of peer) put
            ≡ on_answer me (record { sdp = sdp; kind = answer; from = me; to = peer; ice = ice })
              ∷ [])
  unfolding publish_answer put_signal publish dispatch parse_signal str_eq
  answer_lem sdp ice (v, bytes, e, k, r) = (
    record {
      key = codes "robot/" ++ (me ++ (codes "/signal/" ++ (peer ++ codes "/answer")));
      bytes = bytes;
      knobs = none;
    },
    ground (arith, signal_answer_key_lem {E = E} me peer proper.0.1 proper'.1, e, k),
    ground (
      arith,
      r,
      verb_lem matches star me peer proper proper' (codes "offer") (codes "answer")
          (refl, refl, refl, refl, refl, refl) (refl, refl, refl, refl, refl, refl),
      verb_lem matches star me peer proper proper' (codes "answer") (codes "answer")
          (refl, refl, refl, refl, refl, refl) (refl, refl, refl, refl, refl, refl),
      verb_lem matches star me peer proper proper' (codes "ice") (codes "answer")
          (refl, refl, refl, refl, refl, refl) (refl, refl, refl, refl, refl, refl),
    ),
  )

  pub ice_lem :
      (candidate : IceCandidate)
      → RoundTrips serde
          (record { sdp = []; kind = offer; from = me; to = peer; ice = candidate ∷ [] })
      → (put : Put) × (publish_ice serde {E = E} me peer candidate ≡ ok (some put))
        × (dispatch serde matches (samples_of peer) put ≡ on_ice me candidate ∷ [])
  unfolding publish_ice put_signal publish dispatch parse_signal str_eq
  ice_lem candidate (v, bytes, e, k, r) = (
    record {
      key = codes "robot/" ++ (me ++ (codes "/signal/" ++ (peer ++ codes "/ice")));
      bytes = bytes;
      knobs = none;
    },
    ground (arith, signal_ice_key_lem {E = E} me peer proper.0.1 proper'.1, e, k),
    ground (
      arith,
      r,
      verb_lem matches star me peer proper proper' (codes "offer") (codes "ice")
          (refl, refl, refl, refl, refl, refl) (refl, refl, refl, refl, refl, refl),
      verb_lem matches star me peer proper proper' (codes "answer") (codes "ice")
          (refl, refl, refl, refl, refl, refl) (refl, refl, refl, refl, refl, refl),
      verb_lem matches star me peer proper proper' (codes "ice") (codes "ice")
          (refl, refl, refl, refl, refl, refl) (refl, refl, refl, refl, refl, refl),
    ),
  )
