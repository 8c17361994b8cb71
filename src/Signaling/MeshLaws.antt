-- ===== src/Signaling/MeshLaws.antt =====
-- src/mesh.rs: one peer connection for each remote robot.
use flo.Base.{
  ℕ, ◌≡◌, refl, Option, none, some, List, [], ◌∷◌, Str, Str_eq, str_eq_iff, str_eq_refl, Map,
  lookup, insert, lookup-insert, member, All, All-map, arith, inl, inr, Bool-cases, Option-cases,
}
use flo.Media.Source.{SourceSpec}
use flo.Signaling.Messages.{SignalMessage, IceCandidate, Call, on_offer, on_answer, on_ice}
use flo.Signaling.Mesh.{
  PeerSession, Pending, MeshSignalHandler, peer_of, find_peer, call, call_known, offer_on, entered,
  resume, captured, start_capture, take_out, Event, offer_arrives, peer_made, answer_arrives,
  ice_arrives, capture_started, step, run,
}

-- A call was made on the peer that the sender's session has.
abbrev IsOf : Map Str PeerSession → ℕ × Str × Call → Type 0
IsOf peers (peer, from, c) = peer_of (lookup from peers) ≡ some peer

abbrev pub IsConsistent : MeshSignalHandler → Type 0
IsConsistent h = All (IsOf h.peers) h.calls

-- A session that is entered, or whose peer stays, disturbs no call on record.
insert_lem :
    (peers : Map Str PeerSession) (from : Str) (s : PeerSession) (x : ℕ × Str × Call)
    → (peer : Option ℕ) → peer_of (lookup from peers) ≡ peer
    → ((p : ℕ) → peer ≡ some p → p ≡ s.peer)
    → IsOf peers x
    → IsOf (insert from s peers) x
insert_lem peers from s (p, f, c) peer e same h =
    ground (arith, lookup-insert f from s peers, str_eq_iff from f, same p)

known_lem :
    (h : MeshSignalHandler) (from : Str) (c : Call)
    → IsConsistent h
    → IsConsistent (call_known h (find_peer h from) from c)
unfolding find_peer
known_lem h from c k = elim (Option-cases (lookup from h.peers)) [
  | inl e ↦ rw e k
  | inr (s, e) ↦ rw e (rw e refl, k)
]

offer_lem :
    (h : MeshSignalHandler) (from : Str) (msg : SignalMessage)
    → IsConsistent h
    → IsConsistent (offer_on h (find_peer h from) from msg)
unfolding find_peer
offer_lem h from msg k = elim (Option-cases (lookup from h.peers)) [
  | inl e ↦ rw e k
  | inr (s, e) ↦ rw e (rw e refl, k)
]

new_lem :
    (h : MeshSignalHandler) (made : ℕ) (p : Pending)
    → lookup p.from h.peers ≡ none
    → IsConsistent h
    → All
        (IsOf (insert p.from (record { peer = made; capture = none }) h.peers))
        ((made, p.from, on_offer p.from p.msg) ∷ h.calls)
new_lem h made p e k = (
  ground (
    arith,
    str_eq_refl p.from,
    lookup-insert p.from p.from (record { peer = made; capture = none }) h.peers,
  ),
  All-map h.calls
      (λ x o.
        insert_lem h.peers p.from (record { peer = made; capture = none }) x none (rw e refl)
          (λ q r. ground arith) o)
      k,
)

entered_lem :
    (h : MeshSignalHandler) (made : ℕ) (p : Pending)
    → IsConsistent h
    → IsConsistent (entered h made p (find_peer h p.from))
unfolding find_peer
entered_lem h made p k = elim (Option-cases (lookup p.from h.peers)) [
  | inl e ↦ rw e (fresh h.source e)
  | inr (s, e) ↦ rw e (rw e refl, k)
]
  where
    fresh :
        (source : Option SourceSpec)
        → lookup p.from h.peers ≡ none
        → IsConsistent (
            call
              (start_capture
                (record h {
                  peers = insert p.from (record { peer = made; capture = none }) h.peers;
                })
                p.from
                source)
              made
              p.from
              (on_offer p.from p.msg))
    fresh none e = new_lem h made p e k
    fresh (some source) e = new_lem h made p e k

captured_lem :
    (h : MeshSignalHandler) (from : Str) (c : ℕ)
    → IsConsistent h
    → IsConsistent (captured h from c (lookup from h.peers))
captured_lem h from c k = elim (Option-cases (lookup from h.peers)) [
  | inl e ↦ rw e k
  | inr (s, e) ↦ rw e (
      All-map h.calls
        (λ x o.
          insert_lem h.peers from (record s { capture = some c }) x (some s.peer) (rw e refl)
            (λ p q. ground arith) o)
        k)
]

resume_lem :
    (h : MeshSignalHandler) (made : Option ℕ) (found : Option (Pending × List Pending))
    → IsConsistent h
    → IsConsistent (resume h made found)
unfolding find_peer
resume_lem h made none k = k
resume_lem h none (some (p, others)) k = k
resume_lem h (some made) (some (p, others)) k = entered_lem (record h { pending = others }) made p k

step-IsConsistent : (h : MeshSignalHandler) (e : Event) → IsConsistent h → IsConsistent (step h e)
unfolding step
step-IsConsistent h (offer_arrives from msg) k = offer_lem h from msg k
step-IsConsistent h (peer_made i made) k = resume_lem h made (take_out i h.pending) k
step-IsConsistent h (answer_arrives from msg) k = known_lem h from (on_answer from msg) k
step-IsConsistent h (ice_arrives from candidate) k = known_lem h from (on_ice from candidate) k
step-IsConsistent h (capture_started from c) k = elim (Bool-cases (member from h.starting)) [
  | inl e ↦ rw e (captured_lem h from c k)
  | inr e ↦ rw e k
]

-- Whatever arrives, in whatever order the peers are made, even two at once for one remote robot: every
-- call ever made for a remote robot was made on the one peer that its session holds now.
pub run-IsConsistent :
    (h : MeshSignalHandler) (es : List Event) → IsConsistent h → IsConsistent (run h es)
run-IsConsistent h [] k = k
run-IsConsistent h (e ∷ es) k = run-IsConsistent (step h e) es (step-IsConsistent h e k)

-- A candidate that arrives from a remote robot while the peer for its first offer is being made is
-- dropped: the handler is as if it had not come.
early_ice :
    (h : MeshSignalHandler) (from : Str) (msg : SignalMessage) (candidate : IceCandidate)
    → find_peer h from ≡ none
    → step (step h (offer_arrives from msg)) (ice_arrives from candidate)
      ≡ step h (offer_arrives from msg)
unfolding step find_peer
early_ice h from msg candidate e = rw e (rw e refl)
