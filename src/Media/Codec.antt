-- ===== src/Media/Codec.antt =====
-- src/codec.rs: the video codec and its parameters.
use flo.Base.{ℕ, Str, codes, ◌++◌, List, [], str_eq, if◌then◌else◌, Outcome, ok, err}
use flo.Auth.Mode.{to_ascii_lowercase}

pub data Codec : Type 0 where
  h264 : Codec

unfoldable pub default_codec : Codec
default_codec = h264

unfoldable pub from_str : Str → Outcome Str Codec
unfolding str_eq
from_str s =
    let other = to_ascii_lowercase s in
    if str_eq other (codes "h264")
    then ok h264
    else err (codes "unsupported --video-codec '" ++ (other ++ codes "' (v1 supports: h264)"))

pub record CodecParameters : Type 0 where
  pub mime_type : Str
  pub clock_rate : ℕ
  pub channels : ℕ
  pub sdp_fmtp_line : Str
  pub rtcp_feedback : List Str
  pub payload_type : ℕ

-- `mime_type` is the constant MIME_TYPE_H264 of the rtc crate.
unfoldable pub h264_codec_parameters : Str → CodecParameters
h264_codec_parameters mime_type = record {
  mime_type = mime_type;
  clock_rate = 90000;
  channels = 0;
  sdp_fmtp_line = codes "level-asymmetry-allowed=1;packetization-mode=1";
  rtcp_feedback = [];
  payload_type = 102;
}
