-- ===== src/Examples/CallRuns.antt =====
-- src/video.rs: the theorem at a call between two robots.
use flo.Media.Source.{videotest, description}
use flo.Media.Capture.{
  Gst, Capture, detached, Event, frame, drop, pull_failed, task_ends, run, frames_of,
}
use flo.Media.TrackLaws.{IsTraced}
use flo.Media.CaptureLaws.{samples}
use flo.Signaling.Camera.{start_video_with_source, start_video_with_source-spawned}
use flo.Base.{◌≡◌, refl, true, false, List, [], ◌∷◌, Str, codes, none, some, ok}
use flo.Transport.Wire.{Put, Subscription}
use flo.Signaling.Messages.{Receiver}
use flo.Signaling.Video.{VideoPeer, h264_track}
use flo.Examples.SignalData.{two_messages, webrtc}

abbrev gst : Gst
gst = record {
  init = true;
  has_nvenc = false;
  launches = λ text. true;
  has_sink = true;
  plays = true;
}

-- The capture of a call that has just come up.
abbrev camera : Capture
camera = record {
  pipeline = record {
    text = description videotest false 1280 720 30;
    connected = true;
    playing = true;
  };
  holder = detached;
  rate = 30;
  ssrc = 7;
  payload_type = 102;
  spawned = [];
  written = [];
  failed = [];
}

abbrev caller : VideoPeer webrtc
caller = record {
  robot_id = codes "a";
  pc = codes "v=0" ∷ [];
  track = (h264_track (codes "video/H264") 7 (codes "a-cam0") (codes "a-stream0")).0;
}

abbrev offered_put : Put
offered_put = record { key = codes "robot/a/signal/b/offer"; bytes = codes "offer"; knobs = none }

abbrev receiver : Receiver
receiver = record {
  offers = Subscription.samples (codes "robot/*/signal/a/offer");
  answers = Subscription.samples (codes "robot/*/signal/a/answer");
  ice = Subscription.samples (codes "robot/*/signal/a/ice");
}

abbrev frames : List Event
frames =
    frame (1 ∷ []) ∷ drop ∷ pull_failed ∷ frame (2 ∷ []) ∷ task_ends 1 true ∷ task_ends 0 false ∷ []

start_video_with_source-spawned_example :
    (camera.ssrc ≡ caller.track.ssrc)
    × ((run camera frames).spawned ≡ samples camera (frames_of detached frames))
    × IsTraced (run camera frames)
unfolding flo.Base.str_eq flo.Base.contains_str start_video_with_source
    flo.Topic.Builders.signal_offer_key flo.Topic.Name.try_new flo.Topic.Grammar.matches_one_of
    flo.Base.split flo.Topic.Grammar.canonicalize flo.Topic.Builders.signal_offer_pattern
    flo.Topic.Pattern.try_new flo.Base.ends_with flo.Topic.Grammar.is_valid_pattern
    flo.Topic.Builders.signal_answer_pattern flo.Topic.Builders.signal_ice_pattern
start_video_with_source-spawned_example =
    start_video_with_source-spawned webrtc two_messages gst (λ pc. some []) 7 (codes "a")
      (codes "b") videotest caller offered_put camera receiver frames refl
