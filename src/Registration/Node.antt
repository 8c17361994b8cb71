-- ===== src/Registration/Node.antt =====
-- src/registration/transport.rs: the server as its three tasks on one registry. A schedule is the
-- sequence in which the tasks handle their samples; a task that panicked handles no more.
use flo.Base.{
  ◌≡◌, refl, ◌⊎◌, inl, inr, Bool, true, false, Option, none, some, List, [], ◌∷◌, Str,
  contains_char, is_empty, str_eq_iff, if◌then◌else◌, arith,
}
use flo.Config.Server.{ServerConfig}
use flo.Registration.Lease.{RegistrationLease, ClientState, registered, state, new}
use flo.Registration.LeaseLaws.{Op, registers, deregisters, poisons, deletes, apply, apply-refines}
use flo.Registration.History.{run, run-poisoned}
use flo.Registration.Entries.{IsWellFormed, apply-IsWellFormed}
use flo.Registration.Protocol.{
  RegistrationRequest, register, deregister, RegistrationResponse, Codec, Effect, silent, published,
  crashed,
}
use flo.Registration.Server.{
  SampleKind, put, delete, on_register, on_deregister, monitor_parts, handle_registration,
  handle_deregistration, handle_liveliness,
}
use flo.Topic.Builders.{deregistration_response}
use flo.Topic.Slashes.{deregistration_response_cases}

pub data Event (B : Type 0) : Type 0 where
  registration deregistration : B → Event B
  liveliness : Str → SampleKind → Event B

pub record Node : Type 0 where
  pub lease : RegistrationLease
  pub registering : Bool
  pub deregistering : Bool

abbrev pub start : ServerConfig → Node
start config = record { lease = new config; registering = true; deregistering = true }

abbrev alive_after : {B : Type 0} → Effect B → Bool
alive_after silent = true
alive_after (published t b) = true
alive_after crashed = false

module _ (requests : Codec RegistrationRequest) (responses : Codec RegistrationResponse) where
  unfoldable pub step : Node → Event requests.Bytes → Node × Effect responses.Bytes
  step n (registration payload) =
      if n.registering
      then (let (l, e) = handle_registration requests responses n.lease payload in
          (record n { lease = l; registering = alive_after e }, e))
      else (n, silent)
  step n (deregistration payload) =
      if n.deregistering
      then (let (l, e) = handle_deregistration requests responses n.lease payload in
          (record n { lease = l; deregistering = alive_after e }, e))
      else (n, silent)
  step n (liveliness key kind) =
      let (l, e) = handle_liveliness requests responses n.lease key kind in
      (record n { lease = l }, e)

  unfoldable pub serve : Node → List (Event requests.Bytes) → Node
  serve n [] = n
  serve n (ev ∷ evs) = serve (step n ev).0 evs

  -- Every handler runs at most one operation of the registry, of a kind.
  abbrev OneOp : (Op → Type 0) → RegistrationLease → RegistrationLease → Type 0
  OneOp P l l' = (l' ≡ l) ⊎ ((op : Op) × P op × (l' ≡ (apply l op).0))

  abbrev AnyOp : Op → Type 0
  AnyOp op = Unit

  abbrev IsExit : Op → Type 0
  IsExit (registers id c) = ⊥
  IsExit op = Unit

  registration-OneOp :
      (l : RegistrationLease) (payload : requests.Bytes)
      → OneOp AnyOp l (handle_registration requests responses l payload).0
  unfolding handle_registration apply
  registration-OneOp l payload = go (requests.decode payload) refl
    where
      go :
          (o : Option RegistrationRequest)
          → requests.decode payload ≡ o
          → OneOp AnyOp l (handle_registration requests responses l payload).0
      go none e = inl (rw (e, handle_registration))
      go (some (deregister id)) e = inl (rw (e, handle_registration))
      go (some (register id c)) e = rw (e, handle_registration) (split_id (is_empty id) refl)
        where
          split_id :
              (b : Bool) → is_empty id ≡ b → OneOp AnyOp l (on_register requests responses l id c).0
          split_id true e = inl (ground arith)
          split_id false e = inr (registers id c, tt, ground arith)

  deregistration-OneOp :
      (l : RegistrationLease) (payload : requests.Bytes)
      → OneOp IsExit l (handle_deregistration requests responses l payload).0
  unfolding handle_deregistration apply
  deregistration-OneOp l payload = go (requests.decode payload) refl
    where
      go :
          (o : Option RegistrationRequest)
          → requests.decode payload ≡ o
          → OneOp IsExit l (handle_deregistration requests responses l payload).0
      go none e = inl (rw (e, handle_deregistration))
      go (some (register id c)) e = inl (rw (e, handle_deregistration))
      go (some (deregister id)) e =
          rw (e, handle_deregistration) (at_key (contains_char b'/' id) refl (is_empty id) refl)
        where
          at_key :
              (slash : Bool)
              → contains_char b'/' id ≡ slash
              → (b : Bool) → is_empty id ≡ b
              → OneOp IsExit l
                  (on_deregister requests responses l id (deregistration_response id)).0
          at_key true h b e = inl (ground (arith, deregistration_response_cases {E = Unit {0}} id))
          at_key false h true e =
              inl (ground (arith, deregistration_response_cases {E = Unit {0}} id))
          at_key false h false e =
              inr (
                deregisters id,
                tt,
                ground (arith, deregistration_response_cases {E = Unit {0}} id),
              )

  parts-OneOp :
      (l : RegistrationLease) (parts : List Str) (kind : SampleKind)
      → OneOp IsExit l (monitor_parts requests responses l parts kind).0
  unfolding monitor_parts apply
  parts-OneOp l [] put = inl refl
  parts-OneOp l [] delete = inl refl
  parts-OneOp l (p ∷ []) put = inl refl
  parts-OneOp l (p ∷ []) delete = inl refl
  parts-OneOp l (p ∷ q ∷ ps) put = inl refl
  parts-OneOp l (p ∷ q ∷ ps) delete = inr (deletes q, tt, ground arith)

  any_op : (l l' : RegistrationLease) → OneOp IsExit l l' → OneOp AnyOp l l'
  any_op l l' (inl e) = inl e
  any_op l l' (inr (op, _, e)) = inr (op, tt, e)

  either_way :
      {P : Op → Type 0} (l : RegistrationLease) (b : Bool) (x y : Node × Effect responses.Bytes)
      → OneOp P l x.0.lease
      → OneOp P l y.0.lease
      → OneOp P l (if b then x else y).0.lease
  either_way l true x y h k = h
  either_way l false x y h k = k

  -- One event of the server is at most one operation of the registry.
  step-OneOp : (n : Node) (ev : Event requests.Bytes) → OneOp AnyOp n.lease (step n ev).0.lease
  unfolding step handle_liveliness
  step-OneOp n (registration payload) =
      either_way n.lease n.registering _ _ (registration-OneOp n.lease payload) (inl refl)
  step-OneOp n (deregistration payload) =
      either_way n.lease n.deregistering _ _
        (any_op n.lease _ (deregistration-OneOp n.lease payload)) (inl refl)
  step-OneOp n (liveliness key kind) = any_op n.lease _ (parts-OneOp n.lease _ kind)

  -- A server whose registry is well formed keeps it so, whatever the schedule: a client's
  -- configuration is on record exactly while it is registered, and no entry is of an unknown client.
  pub serve-IsWellFormed :
      (n : Node) (evs : List (Event requests.Bytes))
      → IsWellFormed n.lease
      → IsWellFormed (serve n evs).lease
  unfolding serve
  serve-IsWellFormed n [] w = w
  serve-IsWellFormed n (ev ∷ evs) w = serve-IsWellFormed (step n ev).0 evs (keep (step-OneOp n ev))
    where
      keep : OneOp AnyOp n.lease (step n ev).0.lease → IsWellFormed (step n ev).0.lease
      keep (inl e) = rw e w
      keep (inr (op, _, e)) = rw e (apply-IsWellFormed n.lease op w)

  -- Whatever the schedule, a poisoned client stays poisoned.
  pub serve-poisoned :
      (n : Node) (evs : List (Event requests.Bytes)) (j : Str)
      → state n.lease j ≡ ClientState.poisoned
      → state (serve n evs).lease j ≡ ClientState.poisoned
  unfolding serve run
  serve-poisoned n [] j h = h
  serve-poisoned n (ev ∷ evs) j h = serve-poisoned (step n ev).0 evs j (keep (step-OneOp n ev))
    where
      keep :
          OneOp AnyOp n.lease (step n ev).0.lease
          → state (step n ev).0.lease j ≡ ClientState.poisoned
      keep (inl e) = rw e h
      keep (inr (op, _, e)) = rw e (run-poisoned n.lease (op ∷ []) j h)

  exit_no_join :
      (l l' : RegistrationLease) (j : Str)
      → OneOp IsExit l l'
      → state l' j ≡ registered
      → state l j ≡ registered
  exit_no_join l l' j (inl e) h = rw (← e) h
  exit_no_join l l' j (inr (registers id c, absent, e)) h = absurd absent
  exit_no_join l l' j (inr (deregisters id, _, e)) h =
      ground (arith, (apply-refines l (deregisters id) j).1, str_eq_iff id j, rw e at h)
  exit_no_join l l' j (inr (poisons id, _, e)) h =
      ground (arith, (apply-refines l (poisons id) j).1, str_eq_iff id j, rw e at h)
  exit_no_join l l' j (inr (deletes id, _, e)) h =
      ground (arith, (apply-refines l (deletes id) j).1, str_eq_iff id j, rw e at h)

  pub step_no_join :
      (n : Node) (ev : Event requests.Bytes) (j : Str)
      → n.registering ≡ false
      → ((step n ev).0.registering ≡ false)
        × (state (step n ev).0.lease j ≡ registered → state n.lease j ≡ registered)
  unfolding step handle_liveliness
  step_no_join n (registration payload) j dead = ground (arith, dead)
  step_no_join n (deregistration payload) j dead = ground (
    arith,
    exit_no_join n.lease (handle_deregistration requests responses n.lease payload).0 j
        (deregistration-OneOp n.lease payload),
  )
  step_no_join n (liveliness key kind) j dead =
      (dead, exit_no_join n.lease _ j (parts-OneOp n.lease _ kind))

  -- Once the registration task has died, no client joins any more, whatever arrives: who is
  -- registered later was registered before.
  pub serve_no_join :
      (n : Node) (evs : List (Event requests.Bytes)) (j : Str)
      → n.registering ≡ false
      → state (serve n evs).lease j ≡ registered
      → state n.lease j ≡ registered
  unfolding serve
  serve_no_join n [] j dead h = h
  serve_no_join n (ev ∷ evs) j dead h =
      let (still, back) = step_no_join n ev j dead in
      back (serve_no_join (step n ev).0 evs j still h)
