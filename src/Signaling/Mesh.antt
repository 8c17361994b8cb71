-- ===== src/Signaling/Mesh.antt =====
-- src/mesh.rs: the handler of the mesh. A task of the source runs from one await to the next as one step,
-- so that an interleaving is a list of events. A `VideoPeer` is its identity, a number. The lock of
-- the sessions is never poisoned, since nothing that holds it can panic.
use flo.Base.{
  ℕ, zero, suc, Option, none, some, List, [], ◌∷◌, ◌++◌, Str, Str_eq, codes, Map, lookup, insert,
  member, Outcome, ok, ◌>>=◌, if◌then◌else◌,
}
use flo.Rules.Floats.{Floats}
use flo.Topic.Builders.{robot_local}
use flo.Transport.Wire.{Put, Subscription}
use flo.Media.Source.{SourceSpec}
use flo.Signaling.Messages.{
  IceCandidate, SignalMessage, Serde, Call, on_offer, on_answer, on_ice, Receiver, publish_presence,
  subscribe_presence, run_signal_receiver,
}

pub record PeerSession : Type 0 where
  pub peer : ℕ
  pub capture : Option ℕ

-- An offer whose `VideoPeer` is being made.
pub record Pending : Type 0 where
  pub from : Str
  pub msg : SignalMessage

-- The handler, the offers that wait for their peer, the captures that are being started, and the calls
-- made so far, the last first: of which peer, for whom, and with what.
pub record MeshSignalHandler : Type 0 where
  pub robot_id : Str
  pub peers : Map Str PeerSession
  pub source : Option SourceSpec
  pub pending : List Pending
  pub starting : List Str
  pub calls : List (ℕ × Str × Call)

unfoldable pub new : Str → Option SourceSpec → MeshSignalHandler
new robot_id source = record {
  robot_id = robot_id;
  peers = [];
  source = source;
  pending = [];
  starting = [];
  calls = [];
}

abbrev pub peer_of : Option PeerSession → Option ℕ
peer_of none = none
peer_of (some s) = some s.peer

unfoldable pub find_peer : MeshSignalHandler → Str → Option ℕ
find_peer h from = peer_of (lookup from h.peers)

abbrev pub call : MeshSignalHandler → ℕ → Str → Call → MeshSignalHandler
call h peer from c = record h { calls = (peer, from, c) ∷ h.calls }

-- The call goes to the session's peer, or nowhere.
abbrev pub call_known : MeshSignalHandler → Option ℕ → Str → Call → MeshSignalHandler
call_known h none from c = h
call_known h (some peer) from c = call h peer from c

-- `on_offer`, up to the making of the peer.
abbrev pub offer_on : MeshSignalHandler → Option ℕ → Str → SignalMessage → MeshSignalHandler
offer_on h none from msg = record h {
  pending = h.pending ++ (record { from = from; msg = msg } ∷ []);
}
offer_on h (some peer) from msg = call h peer from (on_offer from msg)

-- `on_offer`, from there on: `peer_for` enters the new peer unless another has been entered meanwhile.
abbrev pub start_capture : MeshSignalHandler → Str → Option SourceSpec → MeshSignalHandler
start_capture h from none = h
start_capture h from (some source) = record h { starting = from ∷ h.starting }

abbrev pub entered : MeshSignalHandler → ℕ → Pending → Option ℕ → MeshSignalHandler
entered h made p (some peer) = call h peer p.from (on_offer p.from p.msg)
entered h made p none =
    let with_session = record h {
      peers = insert p.from (record { peer = made; capture = none }) h.peers;
    } in
    call (start_capture with_session p.from h.source) made p.from (on_offer p.from p.msg)

-- The `i`-th of the waiting tasks, and the others.
abbrev pub with_first : Pending → Option (Pending × List Pending) → Option (Pending × List Pending)
with_first p none = none
with_first p (some (q, others)) = some (q, p ∷ others)

unfoldable pub take_out : ℕ → List Pending → Option (Pending × List Pending)
take_out i [] = none
take_out zero (p ∷ ps) = some (p, ps)
take_out (suc i) (p ∷ ps) = with_first p (take_out i ps)

abbrev pub resume :
    MeshSignalHandler → Option ℕ → Option (Pending × List Pending) → MeshSignalHandler
resume h made none = h
resume h none (some (p, others)) = record h { pending = others }
resume h (some made) (some (p, others)) =
    entered (record h { pending = others }) made p (find_peer h p.from)

abbrev pub captured : MeshSignalHandler → Str → ℕ → Option PeerSession → MeshSignalHandler
captured h from c none = h
captured h from c (some s) = record h {
  peers = insert from (record s { capture = some c }) h.peers;
}

-- What can happen next.
pub data Event : Type 0 where
  offer_arrives : Str → SignalMessage → Event
  -- The `i`-th of the offers that wait has its peer made, or fails to.
  peer_made : ℕ → Option ℕ → Event
  answer_arrives : Str → SignalMessage → Event
  ice_arrives : Str → IceCandidate → Event
  capture_started : Str → ℕ → Event

unfoldable pub step : MeshSignalHandler → Event → MeshSignalHandler
unfolding find_peer take_out
step h (offer_arrives from msg) = offer_on h (find_peer h from) from msg
step h (peer_made i made) = resume h made (take_out i h.pending)
step h (answer_arrives from msg) = call_known h (find_peer h from) from (on_answer from msg)
step h (ice_arrives from candidate) = call_known h (find_peer h from) from (on_ice from candidate)
step h (capture_started from c) =
    if member from h.starting then captured h from c (lookup from h.peers) else h

abbrev pub run : MeshSignalHandler → List Event → MeshSignalHandler
run h [] = h
run h (e ∷ es) = run (step h e) es

-- What `run_signaling` sets up before it returns.
pub record Signaling : Type 0 where
  pub presence : Put
  pub discovery : Subscription
  pub receiver : Receiver
  pub handler : MeshSignalHandler

abbrev listening {ℓ} :
    {E : Type ℓ} → Str → Option SourceSpec → Option Put → Outcome E (Option Signaling)
listening robot_id source none = ok none
listening robot_id source (some presence) = do
  discovery ← subscribe_presence
  receiver ← run_signal_receiver robot_id
  ok (
      some (record {
        presence = presence;
        discovery = discovery;
        receiver = receiver;
        handler = new robot_id source;
      }))

-- `none` where the presence cannot be published. It returns when the loops are started.
unfoldable pub run_signaling {ℓ} :
    {E : Type ℓ} {F : Floats} → Serde F → Str → Option SourceSpec → Outcome E (Option Signaling)
run_signaling serde robot_id source = do
  cam0 ← robot_local robot_id (codes "cam0")
  presence ← publish_presence serde robot_id (cam0.text ∷ [])
  listening robot_id source presence
