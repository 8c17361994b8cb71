-- ===== src/Signaling/Video.antt =====
-- src/video.rs: the peer of one call. The webrtc crate is a parameter: what a connection is and what
-- its methods make of it. A `Pc` holds its sender, and the codec of the track is one it knows.
use flo.Base.{
  ℕ, ◌+◌, ◌%◌, Bool, true, false, Option, none, some, [], Str, codes, ◌++◌, Outcome, ok, err, ok_or,
  ◌>>=◌,
}
use flo.Rules.Floats.{Floats}
use flo.Transport.Wire.{Put}
use flo.Media.Codec.{CodecParameters, h264_codec_parameters}
use flo.Signaling.Messages.{
  IceCandidate, Serde, Call, on_offer, on_answer, on_ice, Receiver, publish_offer, publish_answer,
  publish_ice, run_signal_receiver,
}

pub record RtcIceCandidateInit : Type 0 where
  pub candidate : Str
  pub sdp_mid : Option Str
  pub sdp_mline_index : Option ℕ
  pub username_fragment : Option Str
  pub url : Option Str

pub record Track : Type 0 where
  pub stream_id : Str
  pub track_id : Str
  pub label : Str
  pub ssrc : ℕ
  pub codec : CodecParameters

-- `build_pc` is the registration of the codec and the builder, for one robot and its peer. A method
-- that fails leaves the connection in some state too.
pub record Webrtc : Type 1 where
  pub Pc : Type 0
  pub Description : Type 0
  pub sdp : Description → Str
  pub offer_of : Str → Option Description
  pub answer_of : Str → Option Description
  pub mime_type : Str
  pub build_pc : Str → Str → Option Pc
  pub add_track : Pc → Track → Option Pc
  pub create_offer : Pc → Pc × Option Description
  pub create_answer : Pc → Pc × Option Description
  pub set_local_description : Pc → Description → Pc × Bool
  pub set_remote_description : Pc → Description → Pc × Bool
  pub add_ice_candidate : Pc → RtcIceCandidateInit → Pc × Bool

pub data VideoError : Type 0 where
  new_peer_connection add_track create_offer set_local_description not_published : VideoError

-- `NEXT_SSRC.fetch_add(1)`: an AtomicU32, whose addition wraps.
abbrev pub fetch_add : ℕ → ℕ × ℕ
fetch_add next = (next, (next + 1) % 4294967296)

-- The track, and the counter after it.
unfoldable pub h264_track : Str → ℕ → Str → Str → Track × ℕ
unfolding h264_codec_parameters
h264_track mime_type next id stream_id =
    let (ssrc, next') = fetch_add next in
    (
      record {
        stream_id = stream_id;
        track_id = id;
        label = codes "flo-h264";
        ssrc = ssrc;
        codec = h264_codec_parameters mime_type;
      },
      next',
    )

pub record VideoPeer (w : Webrtc) : Type 0 where
  pub robot_id : Str
  pub pc : w.Pc
  pub track : Track

-- `to_json` of a candidate of our own, the fields that go to the peer.
abbrev pub trickle : RtcIceCandidateInit → IceCandidate
trickle init = record {
  candidate = init.candidate;
  sdp_mid = init.sdp_mid;
  mline_index = init.sdp_mline_index;
}

abbrev pub init_of : IceCandidate → RtcIceCandidateInit
init_of candidate = record {
  candidate = candidate.candidate;
  sdp_mid = candidate.sdp_mid;
  sdp_mline_index = candidate.mline_index;
  username_fragment = none;
  url = none;
}

module _ (w : Webrtc) where
  abbrev with_track : Str → Track × ℕ → w.Pc → ℕ × Outcome VideoError (VideoPeer w)
  with_track robot_id (track, next) pc = elim (w.add_track pc track) [
    | none ↦ (next, err add_track)
    | some pc' ↦ (next, ok (record { robot_id = robot_id; pc = pc'; track = track }))
  ]

  -- `build`, with the counter before and after it.
  unfoldable pub build : ℕ → Str → Str → ℕ × Outcome VideoError (VideoPeer w)
  unfolding h264_track
  build next robot_id peer_id = elim (w.build_pc robot_id peer_id) [
    | none ↦ (next, err new_peer_connection)
    | some pc ↦
        with_track robot_id
          (h264_track w.mime_type next (robot_id ++ codes "-cam0") (robot_id ++ codes "-stream0"))
          pc
  ]

  unfoldable pub answer : ℕ → Str → Str → ℕ × Outcome VideoError (VideoPeer w)
  unfolding build
  answer next robot_id peer_id = build next robot_id peer_id

  abbrev accepted {ℓ} : {E : Type ℓ} → E → w.Pc × Bool → Outcome E w.Pc
  accepted e (pc, false) = err e
  accepted e (pc, true) = ok pc

  abbrev moved : VideoPeer w → w.Pc → VideoPeer w
  moved v pc = record { robot_id = v.robot_id; pc = pc; track = v.track }

  module _ {F : Floats} (serde : Serde F) where
    -- `on_ice_candidate` of the handler of the connection: `none` where `to_json` fails.
    unfoldable pub on_ice_candidate {ℓ} :
        {E : Type ℓ} → Str → Str → Option RtcIceCandidateInit → Outcome E (Option Put)
    unfolding publish_ice
    on_ice_candidate robot_id peer_id none = ok none
    on_ice_candidate robot_id peer_id (some init) =
        publish_ice serde robot_id peer_id (trickle init)

    -- `offer` from the new connection on: the offer is created, set and published.
    unfoldable pub offered : Str → Str → VideoPeer w → Outcome VideoError (VideoPeer w × Put)
    unfolding publish_offer
    offered robot_id peer_id v = do
      let (pc, created) = w.create_offer v.pc
      description ← ok_or created create_offer
      pc' ← accepted set_local_description (w.set_local_description pc description)
      sent ← publish_offer serde robot_id peer_id (w.sdp description) []
      put ← ok_or sent not_published
      ok (moved v pc', put)

    abbrev then_offered :
        Str
        → Str
        → ℕ × Outcome VideoError (VideoPeer w)
        → ℕ × Outcome VideoError (VideoPeer w × Put)
    then_offered robot_id peer_id (next, built) = (next, built >>= offered robot_id peer_id)

    unfoldable pub offer : ℕ → Str → Str → ℕ × Outcome VideoError (VideoPeer w × Put)
    unfolding build offered
    offer next robot_id peer_id = then_offered robot_id peer_id (build next robot_id peer_id)

    module _ {ℓ} {E : Type ℓ} where
      -- The task that `on_offer` spawns, from each of its awaits on.
      abbrev local_set :
          VideoPeer w → Str → w.Description → w.Pc × Bool → Outcome E (VideoPeer w × Option Put)
      local_set v from description (pc, false) = ok (moved v pc, none)
      local_set v from description (pc, true) = do
        sent ← publish_answer serde v.robot_id from (w.sdp description) []
        ok (moved v pc, sent)

      abbrev answer_created :
          VideoPeer w → Str → w.Pc × Option w.Description → Outcome E (VideoPeer w × Option Put)
      answer_created v from (pc, none) = ok (moved v pc, none)
      answer_created v from (pc, some description) =
          local_set v from description (w.set_local_description pc description)

      abbrev remote_set : VideoPeer w → Str → w.Pc × Bool → Outcome E (VideoPeer w × Option Put)
      remote_set v from (pc, false) = ok (moved v pc, none)
      remote_set v from (pc, true) = answer_created v from (w.create_answer pc)

      -- What a call of the handler does, when its task has run: the connection, and what it publishes.
      unfoldable pub handle : VideoPeer w → Call → Outcome E (VideoPeer w × Option Put)
      unfolding publish_answer
      handle v (on_offer from msg) = elim (w.offer_of msg.sdp) [
        | none ↦ ok (v, none)
        | some description ↦ remote_set v from (w.set_remote_description v.pc description)
      ]
      handle v (on_answer from msg) = elim (w.answer_of msg.sdp) [
        | none ↦ ok (v, none)
        | some description ↦ ok (moved v (w.set_remote_description v.pc description).0, none)
      ]
      handle v (on_ice from candidate) =
          ok (moved v (w.add_ice_candidate v.pc (init_of candidate)).0, none)

    -- `start_video`: the call is made, and then the receiver listens.
    unfoldable pub start_video :
        ℕ → Str → Str → ℕ × Outcome VideoError (VideoPeer w × Put × Receiver)
    unfolding offer run_signal_receiver
    start_video next robot_id peer_id =
        let (next', made) = offer next robot_id peer_id in
        (
          next',
          do peer ← made; receiver ← run_signal_receiver robot_id; ok (peer.0, peer.1, receiver),
        )
