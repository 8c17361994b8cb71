-- ===== src/Media/Source.antt =====
-- src/media.rs: the source of the frames, the encoder and the text of the pipeline. The pipeline itself
-- is GStreamer's.
use flo.Base.{
  ℕ, Bool, Option, none, some, Str, codes, show_ℕ, ◌++◌, if◌then◌else◌, Outcome, ok, err, panic,
}
use flo.Media.Device.{VideoDevice, DeviceValidationError, DeviceFiles, from_path}
use flo.Cli.Args.{Args}

pub data SourceSpec : Type 0 where
  videotest : SourceSpec
  v4l2 : Str → SourceSpec

unfoldable pub encoder_element_name : Bool → Str
encoder_element_name has_nvenc = if has_nvenc then codes "nvv4l2h264enc" else codes "x264enc"

-- `format!`: the caps of the frames.
abbrev caps : ℕ → ℕ → ℕ → Str
caps width height fps =
    codes " ! video/x-raw,format=NV12,width="
    ++ (show_ℕ width
        ++ (codes ",height="
            ++ (show_ℕ height ++ (codes ",framerate=" ++ (show_ℕ fps ++ codes "/1")))))

unfoldable pub source_element : SourceSpec → ℕ → ℕ → ℕ → Str
source_element videotest width height fps =
    codes "videotestsrc is-live=true pattern=ball" ++ caps width height fps
source_element (v4l2 dev) width height fps =
    codes "v4l2src device=" ++ (dev ++ caps width height fps)

-- The text that `build` hands to GStreamer.
unfoldable pub description : SourceSpec → Bool → ℕ → ℕ → ℕ → Str
unfolding source_element encoder_element_name
description source has_nvenc width height fps =
    source_element source width height fps
    ++ (codes " ! videoconvert ! "
        ++ (encoder_element_name has_nvenc
            ++ codes " ! h264parse ! appsink name=enc drop=true max-buffers=2"))

unfoldable pub to_source_spec : VideoDevice → SourceSpec
to_source_spec device = v4l2 device.path

abbrev or_test_pattern : Outcome DeviceValidationError VideoDevice → Outcome Str SourceSpec
or_test_pattern (ok dev) = ok (to_source_spec dev)
or_test_pattern (err e) = ok videotest
or_test_pattern panic = panic

-- What `spawn_video_peer` starts: nothing without a peer, else a call to that peer with the device,
-- or with the test pattern where there is no usable device.
abbrev chosen : DeviceFiles → Option Str → Outcome Str SourceSpec
chosen files none = ok videotest
chosen files (some d) = or_test_pattern (from_path files d)

unfoldable pub spawn_video_peer : DeviceFiles → Args → Option (Str × Outcome Str SourceSpec)
unfolding from_path to_source_spec
spawn_video_peer files args = elim args.video.peer [
  | none ↦ none
  | some peer ↦ some (peer, chosen files args.video.device)
]
