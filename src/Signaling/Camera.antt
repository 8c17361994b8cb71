-- ===== src/Signaling/Camera.antt =====
-- src/video.rs: `start_video_with_source`, a call whose frames come from a source. What the sender says
-- of its codecs is a parameter.
use flo.Base.{
  ℕ, ◌≡◌, refl, ap, sym, ◌∙◌, true, Option, none, some, List, [], ◌∷◌, ◌++◌, Str, Outcome, ok, err,
  panic, ◌>>=◌, >>=-eq-ok, ok-injective,
}
use flo.Rules.Floats.{Floats}
use flo.Transport.Wire.{Put}
use flo.Media.Source.{SourceSpec}
use flo.Media.Capture.{
  MediaError, Gst, detached, Capture, start_capture, Event, detach, step, run, frames_of,
}
use flo.Media.CaptureLaws.{samples, start_capture_lem, run_detached, detach_lem}
use flo.Media.TrackLaws.{IsTraced, fresh-IsTraced, run-IsTraced}
use flo.Signaling.Messages.{Serde, Receiver, run_signal_receiver}
use flo.Signaling.Video.{Webrtc, VideoPeer, VideoError, offer}

-- A capture that runs is detached, so that it goes on; an error is logged, and the call goes on.
unfoldable pub kept_on {ℓ} : {E : Type ℓ} → Outcome MediaError Capture → Outcome E (Option Capture)
unfolding step
kept_on (ok c) = ok (some (step c detach))
kept_on (err e) = ok none
kept_on panic = panic

module _ (w : Webrtc) {F : Floats} (serde : Serde F) (gst : Gst)
    (codecs : w.Pc → Option (List ℕ)) where
  abbrev capture_of : SourceSpec → VideoPeer w → Outcome MediaError Capture
  capture_of source peer =
      start_capture w.mime_type gst true (peer.track.ssrc ∷ []) (codecs peer.pc) source 1280 720 30

  -- The call is made, then the capture starts, and then the receiver listens.
  unfoldable pub start_video_with_source :
      ℕ
      → Str
      → Str
      → SourceSpec
      → ℕ × Outcome VideoError (VideoPeer w × Put × Option Capture × Receiver)
  unfolding offer run_signal_receiver start_capture kept_on
  start_video_with_source next robot_id peer_id source =
      let (next', made) = offer w serde next robot_id peer_id in
      (
        next',
        do
          peer ← made
          capture ← kept_on (capture_of source peer.0)
          receiver ← run_signal_receiver robot_id
          ok (peer.0, peer.1, capture, receiver),
      )

  abbrev or_else : Capture → Option Capture → Capture
  or_else c none = c
  or_else c (some d) = d

  abbrev or_zero : Option ℕ → ℕ
  or_zero none = 0
  or_zero (some n) = n

  kept_on_lem :
      (o : Outcome MediaError Capture) {c : Capture}
      → kept_on {E = VideoError} o ≡ ok (some c)
      → (d : Capture) × (o ≡ ok d) × (c ≡ step d detach)
  unfolding kept_on
  kept_on_lem (ok d) h = (d, refl, ap (or_else d) (ok-injective (sym h)))
  kept_on_lem (err e) h = cc
  kept_on_lem panic h = cc

  -- Where a call comes up with its capture: the tasks that the capture spawns to write to the track are
  -- just one for each frame that the source brings, spawned in the order of the frames, with the frame's
  -- sample under the stream source of the call's own track, whichever tasks end in between and however;
  -- dropping a handle does not end that; and what has been written to the track are samples of spawned
  -- tasks, none of them twice.
  pub start_video_with_source-spawned :
      (next : ℕ) (robot_id peer_id : Str) (source : SourceSpec) (peer : VideoPeer w) (put : Put)
      (c : Capture) (receiver : Receiver) (es : List Event)
      → (start_video_with_source next robot_id peer_id source).1 ≡ ok (peer, put, some c, receiver)
      → (c.ssrc ≡ peer.track.ssrc)
        × ((run c es).spawned ≡ samples c (frames_of detached es))
        × IsTraced (run c es)
  unfolding start_video_with_source
  start_video_with_source-spawned next robot_id peer_id source peer put c receiver es h =
      let (made, e1, h1) = >>=-eq-ok (offer w serde next robot_id peer_id).1 _ h in
      let (capture, e2, h2) = >>=-eq-ok (kept_on (capture_of source made.0)) _ h1 in
      let (listens, e3, h3) = >>=-eq-ok (run_signal_receiver robot_id) _ h2 in
      let same = ok-injective h3 in
      let (d, begun, from) =
        kept_on_lem (capture_of source made.0) (e2 ∙ ap ok (ap (λ x. x.2) same)) in
      let (holds, live, nothing, stream, unwritten) =
        start_capture_lem w.mime_type gst true (made.0.track.ssrc ∷ []) (codecs made.0.pc) source
          1280 720 30 d begun in
      let kept : c ≡ record d { holder = detached } = from ∙ detach_lem d holds in
      (
        ap (λ x. x.ssrc) kept ∙ ap (or_zero) (sym stream) ∙ ap (λ x. x.0.track.ssrc) same,
        run_detached c es (ap (λ x. x.holder) kept) (
          ap (λ x. x.pipeline.playing) kept ∙ live.0,
          ap (λ x. x.pipeline.connected) kept ∙ live.1,
        )
            ∙ ap (λ x. x ++ samples c (frames_of detached es)) (ap (λ x. x.spawned) kept ∙ nothing),
        run-IsTraced c es (fresh-IsTraced c (ap (λ x. x.written) kept ∙ unwritten)),
      )
