-- ===== src/Media/Capture.antt =====
-- src/media.rs and src/video.rs: the pipeline that encodes frames, and the capture that hands them to a
-- peer's track. What GStreamer refuses, and what the track and its sender say, are parameters.
use flo.Base.{
  ℕ, Bool, true, false, ◌&&◌, Option, none, some, List, [], ◌∷◌, ◌++◌, Str, ltb, not, any, nat_eq,
  length, if◌then◌else◌, Outcome, ok, err, ◌>>=◌, ◌>>◌, ok_or, unwrap,
}
use flo.Media.Codec.{h264_codec_parameters}
use flo.Media.Source.{SourceSpec, description}

pub data MediaError : Type 0 where
  not_initialised not_launched no_sink not_playing no_runtime no_parameters : MediaError

-- What GStreamer says: whether it initialises, has the hardware encoder, makes a pipeline of a text,
-- finds the sink `enc` in it, and sets it playing.
pub record Gst : Type 0 where
  pub init : Bool
  pub has_nvenc : Bool
  pub launches : Str → Bool
  pub has_sink : Bool
  pub plays : Bool

-- A pipeline: its text, whether its sink has its callback, and whether it plays.
pub record MediaPipeline : Type 0 where
  pub text : Str
  pub connected : Bool
  pub playing : Bool

abbrev pub require : Bool → MediaError → Outcome MediaError (Unit {0})
require holds e = if holds then ok tt else err e

module _ (gst : Gst) where
  unfoldable pub build : SourceSpec → ℕ → ℕ → ℕ → Outcome MediaError MediaPipeline
  unfolding description
  build source width height fps = do
    require gst.init not_initialised
    let text = description source gst.has_nvenc width height fps
    require (gst.launches text) not_launched
    ok (record { text = text; connected = false; playing = false })

  unfoldable pub start : MediaPipeline → Outcome MediaError MediaPipeline
  start pipeline = do
    require gst.has_sink no_sink
    require gst.plays not_playing
    ok (record pipeline { connected = true; playing = true })

unfoldable pub stop : MediaPipeline → MediaPipeline
stop pipeline = record pipeline { playing = false }

-- A sample for the track. Its duration is a second over `rate`.
pub record Sample : Type 0 where
  pub data_of : List ℕ
  pub rate : ℕ
  pub ssrc : ℕ
  pub payload_type : ℕ

-- Who holds the pipeline: the handle, nobody since it was detached, or nobody since it was dropped.
pub data Holder : Type 0 where
  held detached dropped : Holder

-- A capture under way: the samples for which its callback has spawned a task, in order, and the tasks,
-- by their place there, that have written their sample to the track or failed to, in the order in which
-- they did.
pub record Capture : Type 0 where
  pub pipeline : MediaPipeline
  pub holder : Holder
  pub rate : ℕ
  pub ssrc : ℕ
  pub payload_type : ℕ
  pub spawned : List Sample
  pub written : List ℕ
  pub failed : List ℕ

abbrev pub first : List ℕ → Option ℕ
first [] = none
first (n ∷ ns) = some n

abbrev or_registered : Str → Option ℕ → ℕ
or_registered mime_type none = (h264_codec_parameters mime_type).payload_type
or_registered mime_type (some n) = n

-- `fps.max(1)`
abbrev at_least_one : ℕ → ℕ
at_least_one fps = if ltb 1 fps then fps else 1

-- `ssrcs` are the track's, and `codecs` the payload types of the sender's parameters, if it tells them.
unfoldable pub start_capture :
    Str
    → Gst
    → Bool
    → List ℕ
    → Option (List ℕ)
    → SourceSpec
    → ℕ
    → ℕ
    → ℕ
    → Outcome MediaError Capture
unfolding build start h264_codec_parameters
start_capture mime_type gst has_runtime ssrcs codecs source width height fps = do
  require has_runtime no_runtime
  pipeline ← build gst source width height fps
  ssrc ← unwrap (first ssrcs)
  types ← ok_or codecs no_parameters
  playing ← start gst pipeline
  ok (record {
    pipeline = playing;
    holder = held;
    rate = at_least_one fps;
    ssrc = ssrc;
    payload_type = or_registered mime_type (first types);
    spawned = [];
    written = [];
    failed = [];
  })

unfoldable pub sample_of : Capture → List ℕ → Sample
sample_of c bytes = record {
  data_of = bytes;
  rate = c.rate;
  ssrc = c.ssrc;
  payload_type = c.payload_type;
}

-- An encoded frame reaches the sink, one cannot be pulled or read, the handle is detached or dropped, or
-- a spawned task ends, in whatever order the runtime runs them, with `write_sample` a success or not.
pub data Event : Type 0 where
  frame : List ℕ → Event
  pull_failed detach drop : Event
  task_ends : ℕ → Bool → Event

-- `Drop` for the handle.
abbrev pub on_drop : Holder → Capture → Capture
on_drop held c = record c { pipeline = stop c.pipeline; holder = dropped }
on_drop detached c = c
on_drop dropped c = c

-- `detach`, which forgets the handle.
abbrev pub on_detach : Holder → Capture → Capture
on_detach held c = record c { holder = detached }
on_detach detached c = c
on_detach dropped c = c

-- A task that has been spawned and has not ended.
abbrev pub is_pending : Capture → ℕ → Bool
is_pending c i =
    ltb i (length c.spawned) && not (any (nat_eq i) c.written) && not (any (nat_eq i) c.failed)

abbrev pub noted : Bool → ℕ → List ℕ → List ℕ
noted holds i is = if holds then is ++ i ∷ [] else is

unfoldable pub step : Capture → Event → Capture
unfolding sample_of stop
step c (frame bytes) =
    if c.pipeline.playing && c.pipeline.connected
    then record c { spawned = c.spawned ++ sample_of c bytes ∷ [] }
    else c
step c pull_failed = c
step c detach = on_detach c.holder c
step c drop = on_drop c.holder c
step c (task_ends i success) = record c {
  written = noted (is_pending c i && success) i c.written;
  failed = noted (is_pending c i && not success) i c.failed;
}

abbrev pub run : Capture → List Event → Capture
run c [] = c
run c (e ∷ es) = run (step c e) es

-- The frames among the events, up to a drop of the handle where it has not been detached before.
abbrev pub frames_of : Holder → List Event → List (List ℕ)
frames_of dropped es = []
frames_of h [] = []
frames_of h (frame bytes ∷ es) = bytes ∷ frames_of h es
frames_of h (pull_failed ∷ es) = frames_of h es
frames_of h (task_ends i success ∷ es) = frames_of h es
frames_of held (detach ∷ es) = frames_of detached es
frames_of held (drop ∷ es) = []
frames_of detached (detach ∷ es) = frames_of detached es
frames_of detached (drop ∷ es) = frames_of detached es
