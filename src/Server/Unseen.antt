-- ===== src/Server/Unseen.antt =====
-- src/server.rs, src/health.rs and src/registration/transport.rs: what the supervisor of the server sees,
-- and what it does not see.
use mathlib.Core.List.{Mem, mem-cons_self, mem-cons_of_mem}
use flo.Base.{
  ◌≡◌, refl, true, false, none, some, List, [], ◌∷◌, Str, codes, contains_char, All, All-map, arith,
}
use flo.Config.Client.{ClientConfig}
use flo.Registration.Lease
use flo.Registration.Lease.{RegistrationLease, registered, state}
use flo.Registration.Protocol.{RegistrationRequest, register, RegistrationResponse, Codec}
use flo.Registration.Node
use flo.Registration.Node.{Node, serve_no_join, step_no_join}
use flo.Registration.Exchange.{register_crash}
use flo.Health.Supervisor.{Exit}
use flo.Health.Tasks.{Task, Names, WhenEnded, outcomes-Names}
use flo.Server.Tasks.{
  Running, supervised, supervise, Event, traffic, health_exits, engine_exits, reload_exits, ending,
  step, run,
}

-- The ends of tasks among the events, with the names that the supervisor has for them.
abbrev pub ends : {B : Type 0} → List (Event B) → List (Str × Exit)
ends [] = []
ends (traffic ev ∷ evs) = ends evs
ends (health_exits exit ∷ evs) = (codes "health", exit) ∷ ends evs
ends (engine_exits exit ∷ evs) = (codes "rule engine", exit) ∷ ends evs
ends (reload_exits exit ∷ evs) = (codes "hot-reload", exit) ∷ ends evs

-- This end of a task is among the events.
abbrev pub HasEnded : {B : Type 0} → List (Event B) → Str → Exit → Type 0
HasEnded evs name exit = Mem (name, exit) (ends evs)

ending_lem :
    (P : Str → Exit → Type 0) (name : Str) (task : Task) (exit : Exit)
    → WhenEnded P (name, task)
    → P name exit
    → WhenEnded P (name, ending task exit)
ending_lem P name none exit h k = k
ending_lem P name (some first) exit h k = h

-- Every element of a list is a member of it.
All-Mem : {A : Type 0} (xs : List A) → All (λ x. Mem x xs) xs
All-Mem [] = tt
All-Mem (x ∷ xs) = (mem-cons_self, All-map xs (λ y m. mem-cons_of_mem _ m) (All-Mem xs))

abbrev pub IsGoing : Str × Task → Type 0
IsGoing task = task.1 ≡ none

going_lem : (P : Str → Exit → Type 0) (task : Str × Task) → IsGoing task → WhenEnded P task
going_lem P (name, none) h = tt
going_lem P (name, some exit) h = cc

module _ (requests : Codec RegistrationRequest) (responses : Codec RegistrationResponse) where
  traffic-tasks :
      (r : Running) (ev : Node.Event requests.Bytes)
      → (step requests responses r (traffic ev)).0.tasks ≡ r.tasks
  unfolding step
  traffic-tasks r (Node.registration payload) = refl
  traffic-tasks r (Node.deregistration payload) = refl
  traffic-tasks r (Node.liveliness key kind) = ground arith

  run-WhenEnded :
      (P : Str → Exit → Type 0) (r : Running) (evs : List (Event requests.Bytes))
      → All (WhenEnded P) (supervised r.tasks)
      → All (λ e. P e.0 e.1) (ends evs)
      → All (WhenEnded P) (supervised (run requests responses r evs).tasks)
  unfolding supervised step
  run-WhenEnded P r [] h k = h
  run-WhenEnded P r (traffic ev ∷ evs) h k =
      let same = traffic-tasks r ev in
      run-WhenEnded P (step requests responses r (traffic ev)).0 evs (rw same h) k
  run-WhenEnded P r (health_exits exit ∷ evs) h k =
      run-WhenEnded P (step requests responses r (health_exits exit)).0 evs
        (ending_lem P _ r.tasks.health exit h.0 k.0, h.1) k.1
  run-WhenEnded P r (engine_exits exit ∷ evs) h k =
      run-WhenEnded P (step requests responses r (engine_exits exit)).0 evs
        (h.0, (ending_lem P _ r.tasks.engine exit h.1.0 k.0, h.1.1)) k.1
  run-WhenEnded P r (reload_exits exit ∷ evs) h k =
      run-WhenEnded P (step requests responses r (reload_exits exit)).0 evs
        (h.0, (h.1.0, (ending_lem P _ r.tasks.reload exit h.1.1.0 k.0, h.1.1.1))) k.1

  -- A step of the server with a dead registration loop lets nobody in.
  deaf_step :
      (r : Running) (ev : Event requests.Bytes) (j : Str)
      → r.node.registering ≡ false
      → ((step requests responses r ev).0.node.registering ≡ false)
        × (state (step requests responses r ev).0.node.lease j ≡ registered
            → state r.node.lease j ≡ registered)
  unfolding step
  deaf_step r (traffic (Node.registration payload)) j dead =
      step_no_join requests responses r.node (Node.registration payload) j dead
  deaf_step r (traffic (Node.deregistration payload)) j dead =
      step_no_join requests responses r.node (Node.deregistration payload) j dead
  deaf_step r (traffic (Node.liveliness key kind)) j dead =
      ground (arith, dead, step_no_join requests responses r.node (Node.liveliness key kind) j dead)
  deaf_step r (health_exits exit) j dead = (dead, λ h. h)
  deaf_step r (engine_exits exit) j dead = (dead, λ h. h)
  deaf_step r (reload_exits exit) j dead = (dead, λ h. h)

  run_no_join :
      (r : Running) (evs : List (Event requests.Bytes)) (j : Str)
      → r.node.registering ≡ false
      → state (run requests responses r evs).node.lease j ≡ registered
      → state r.node.lease j ≡ registered
  run_no_join r [] j dead h = h
  run_no_join r (ev ∷ evs) j dead h =
      let (still, back) = deaf_step r ev j dead in
      back (run_no_join (step requests responses r ev).0 evs j still h)

  crash_step :
      (r : Running) (id : Str) (config : ClientConfig) (payload : requests.Bytes)
      → r.node.registering ≡ true
      → contains_char b'/' id ≡ true
      → requests.decode payload ≡ some (register id config)
      → ((step requests responses r (traffic (Node.registration payload))).0.node.registering
          ≡ false)
        × ((step requests responses r (traffic (Node.registration payload))).0.node.lease
            ≡ (Lease.register r.node.lease id config).0)
  unfolding step Node.step
  crash_step r id config payload live slash decoded =
      let crash = register_crash requests responses r.node.lease id config payload slash decoded in
      (rw (live, crash) refl, rw (live, crash) refl)

  -- One request whose robot id holds a slash, on a server whose tasks all go on: whatever arrives after
  -- it, who is registered then was registered when the request had been handled, and the supervisor
  -- does not see it. It comes to a result only for an end of the health server, the rule engine or the
  -- hot reload that there has been, and names that end.
  pub crash_unseen :
      (r : Running) (id : Str) (config : ClientConfig) (payload : requests.Bytes)
      (evs : List (Event requests.Bytes))
      → All IsGoing (supervised r.tasks)
      → r.node.registering ≡ true
      → contains_char b'/' id ≡ true
      → requests.decode payload ≡ some (register id config)
      → All
          (Names (HasEnded evs))
          (supervise (run requests responses r (traffic (Node.registration payload) ∷ evs)))
        × ((j : Str)
            → state
                (run requests responses r (traffic (Node.registration payload) ∷ evs)).node.lease
                j
              ≡ registered
            → state (Lease.register r.node.lease id config).0 j ≡ registered)
  unfolding supervise
  crash_unseen r id config payload evs on live slash decoded =
      let (dead, entered) = crash_step r id config payload live slash decoded in
      (
        outcomes-Names (HasEnded evs)
            (supervised
              (run requests responses r (traffic (Node.registration payload) ∷ evs)).tasks)
            (run-WhenEnded (HasEnded evs) r (traffic (Node.registration payload) ∷ evs)
              (All-map (supervised r.tasks) (going_lem (HasEnded evs)) on) (All-Mem (ends evs))),
        λ j h. rw entered at (run_no_join _ evs j dead h),
      )
