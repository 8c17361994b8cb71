-- ===== src/Examples/SignalData.antt =====
-- Test data: a matcher of patterns, a serialisation of three messages, a handler and an engine.
use flo.Base.{
  ℕ, ◌≡◌, refl, Bool, true, false, Option, none, some, List, [], ◌∷◌, ◌++◌, Str, codes, Lacks,
  is_empty, str_eq, nat_eq, arith, if◌then◌else◌,
}
use flo.Rules.Json.{Value, string}
use flo.Rules.Model.{Rules}
use flo.Health.Gate
use flo.Engine.State
use flo.Engine.Run.{Engine}
use flo.Signaling.Messages.{IceCandidate, SignalKind, offer, answer, SignalMessage, Serde}
use flo.Signaling.Delivery.{path, IsStar}
use flo.Signaling.Video.{Webrtc, VideoPeer, h264_track}
use flo.Examples.Data.{floats, zone_edge, estop}

-- What follows a segment.
after_segment : Str → Str
after_segment [] = []
after_segment (c ∷ s) = let rest = after_segment s in if nat_eq c b'/' then c ∷ s else rest

-- A pattern with at most one star, which takes one segment.
unfoldable pub one_star : Str → Str → Bool
unfolding after_segment str_eq
one_star [] key = is_empty key
one_star (c ∷ pattern) [] = false
one_star (c ∷ pattern) (d ∷ key) =
    let further = one_star pattern key in
    if nat_eq c b'*'
    then str_eq pattern (after_segment (d ∷ key))
    else if nat_eq c d
    then further
    else false

after_segment_lem : (s key : Str) → Lacks b'/' s → after_segment (s ++ b'/' ∷ key) ≡ b'/' ∷ key
unfolding after_segment
after_segment_lem [] key h = refl
after_segment_lem (c ∷ s) key h = ground (arith, after_segment_lem s key)

one_star_lem :
    (chunk after key : Str)
    → is_empty chunk ≡ false
    → Lacks b'/' chunk
    → one_star (codes "robot/*/" ++ after) (codes "robot/" ++ (chunk ++ b'/' ∷ key))
      ≡ str_eq after key
unfolding one_star str_eq
one_star_lem [] after key full lacks = cc
one_star_lem (c ∷ chunk) after key full lacks =
    ground (arith, after_segment_lem (c ∷ chunk) key lacks)

pub one_star-IsStar : IsStar one_star
one_star-IsStar chunk a k after key plain p q =
    one_star_lem chunk (path (a ∷ after)) (path (k ∷ key)) plain.0.0 plain.0.1

abbrev pub candidate : IceCandidate
candidate = record { candidate = codes "candidate:1"; sdp_mid = none; mline_index = some 0 }

abbrev pub message : SignalKind → Str → List IceCandidate → SignalMessage
message kind sdp ice = record {
  sdp = sdp;
  kind = kind;
  from = codes "a";
  to = codes "b";
  ice = ice;
}

abbrev tag : SignalMessage → Str
tag m = elim m.kind [
  | answer ↦ codes "answer"
  | offer ↦ if is_empty m.sdp then codes "ice" else codes "offer"
]

abbrev written : Value floats → Option (List ℕ)
written (string s) = some s
written _ = none

-- The offer, the answer and the candidate of one session.
abbrev pub three_messages : Serde floats
three_messages = record {
  to_value = λ m. some (string (tag m));
  presence_value = λ p. some (string p.id);
  to_vec = written;
  from_slice = λ text.
      if str_eq text (codes "answer")
      then some (message answer (codes "v=0") [])
      else if str_eq text (codes "ice")
      then some (message offer [] (candidate ∷ []))
      else some (message offer (codes "v=0") []);
  presence_from_slice = λ text. some (record { id = text; streams = [] });
}

abbrev pub edge_rules : Rules floats
edge_rules = record {
  rules =
      record {
        name = codes "dock";
        when = record { all = zone_edge ∷ []; any = [] };
        actions = estop ∷ [];
      }
      ∷ [];
}

abbrev pub idle : Engine floats
idle = record {
  st = State.empty floats;
  live = [];
  current_topics = [];
  queue = [];
  active = record { ptr = 1; rules = edge_rules };
  changed = true;
  gate = Gate.new;
}

abbrev call_message : SignalKind → Str → Str → Str → SignalMessage
call_message kind from to sdp = record { sdp = sdp; kind = kind; from = from; to = to; ice = [] }

-- The two messages of a call from `a` to `b`.
abbrev pub two_messages : Serde floats
two_messages = record {
  to_value = λ m. some (string (tag m));
  presence_value = λ p. some (string p.id);
  to_vec = written;
  from_slice = λ text.
      if str_eq text (codes "answer")
      then some (call_message answer (codes "b") (codes "a") (codes "v=1"))
      else some (message offer (codes "v=0") []);
  presence_from_slice = λ text. some (record { id = text; streams = [] });
}

-- A connection that is the list of the descriptions set on it, the last first.
abbrev pub webrtc : Webrtc
webrtc = record {
  Pc = List Str;
  Description = Str;
  sdp = λ d. d;
  offer_of = λ s. some s;
  answer_of = λ s. some s;
  mime_type = codes "video/H264";
  build_pc = λ me peer. some [];
  add_track = λ pc track. some pc;
  create_offer = λ pc. (pc, some (codes "v=0"));
  create_answer = λ pc. (pc, some (codes "v=1"));
  set_local_description = λ pc d. (d ∷ pc, true);
  set_remote_description = λ pc d. (d ∷ pc, true);
  add_ice_candidate = λ pc init. (init.candidate ∷ pc, true);
}

abbrev pub peer_at : Str → List Str → VideoPeer webrtc
peer_at id pc = record {
  robot_id = id;
  pc = pc;
  track = (h264_track (codes "video/H264") 0 (codes "cam0") (codes "stream0")).0;
}
