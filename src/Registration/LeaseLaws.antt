-- ===== src/Registration/LeaseLaws.antt =====
-- src/registration/lease.rs: each client of the registry is a small state machine of its own.
use flo.Base.{
  ◌≡◌, Bool, true, false, none, some, Str, Str_eq, ◌==◌, lookup-insert, lookup-without,
  if◌then◌else◌, arith, str_eq_iff,
}
use flo.Config.Client.{ClientConfig}
use flo.Registration.Lease.{
  ClientState, unknown, registered, RegistrationLease, Reply, ok, err, RegistrationError,
  already_registered, not_registered, state, register, deregister, poison, on_liveliness_delete,
}

pub data Op : Type 0 where
  registers : Str → ClientConfig → Op
  deregisters poisons deletes : Str → Op

-- What an operation answers: the result of a `Result`, nothing, or a flag.
pub data Answer : Type 0 where
  replied : Reply (Unit {0}) → Answer
  done : Answer
  flag : Bool → Answer

unfoldable pub apply : RegistrationLease → Op → RegistrationLease × Answer
apply l (registers id c) = let (l', r) = register l id c in (l', replied r)
apply l (deregisters id) = let (l', r) = deregister l id in (l', replied r)
apply l (poisons id) = (poison l id, done)
apply l (deletes id) = let (l', b) = on_liveliness_delete l id in (l', flag b)

abbrev pub subject : Op → Str
subject (registers id c) = id
subject (deregisters id) = id
subject (poisons id) = id
subject (deletes id) = id

-- The abstract machine of one client: its next state and the answer, read off its state alone.
abbrev pub next : ClientState → Op → ClientState × Answer
next ClientState.poisoned (registers _ c) =
    (ClientState.poisoned, replied (err RegistrationError.poisoned))
next registered (registers _ c) = (registered, replied (err already_registered))
next _ (registers _ c) = (registered, replied (ok tt))
next registered (deregisters _) = (unknown, replied (ok tt))
next ClientState.poisoned (deregisters _) =
    (ClientState.poisoned, replied (err RegistrationError.poisoned))
next s (deregisters _) = (s, replied (err not_registered))
next s (poisons _) = (ClientState.poisoned, done)
next registered (deletes _) = (ClientState.poisoned, flag true)
next s (deletes _) = (s, flag false)

-- Every operation answers as the machine of its client does, moves that client as the machine
-- does, and leaves every other client alone.
pub apply-refines :
    (l : RegistrationLease) (op : Op) (j : Str)
    → ((apply l op).1 ≡ (next (state l (subject op)) op).1)
      × (state (apply l op).0 j
          ≡ (if subject op == j then (next (state l (subject op)) op).0 else state l j))
unfolding apply register deregister poison on_liveliness_delete state
apply-refines l (registers id c) j = ground (
  arith,
  str_eq_iff id j,
  lookup-insert j id (record { state = registered; config = some c }) l.clients,
)
apply-refines l (deregisters id) j = ground (arith, str_eq_iff id j, lookup-without j id l.clients)
apply-refines l (poisons id) j = ground (
  arith,
  str_eq_iff id j,
  lookup-insert j id (record { state = ClientState.poisoned; config = none }) l.clients,
)
apply-refines l (deletes id) j = ground (
  arith,
  str_eq_iff id j,
  lookup-insert j id (record { state = ClientState.poisoned; config = none }) l.clients,
)
