-- ===== src/Registration/Lease.antt =====
-- src/registration/lease.rs: the lease registry. Each operation holds the write lock from its read
-- to its write, so it is one function of the state; the lock itself, and the log, are left out.
use flo.Base.{
  Option, none, some, Bool, true, false, List, [], ◌∷◌, Str, Str_eq, Map, lookup, insert, without,
}
use flo.Config.Client.{ClientConfig}
use flo.Config.Server.{ExpectedClient, ServerConfig}

pub data ClientState : Type 0 where
  unknown expected registered poisoned : ClientState

pub record ClientEntry : Type 0 where
  pub state : ClientState
  pub config : Option ClientConfig

pub record RegistrationLease : Type 0 where
  pub clients : Map Str ClientEntry
  pub config : ServerConfig

pub data RegistrationError : Type 0 where
  already_registered poisoned not_registered timeout : RegistrationError
  server_error : Str → RegistrationError

pub data Reply {ℓ} (A : Type ℓ) : Type ℓ where
  ok : A → Reply A
  err : RegistrationError → Reply A

-- The loop of `new`, over the map filled so far.
unfoldable pub expect_all : Map Str ClientEntry → List ExpectedClient → Map Str ClientEntry
expect_all clients [] = clients
expect_all clients (e ∷ es) =
    expect_all (insert e.robot_id (record { state = expected; config = none }) clients) es

unfoldable pub new : ServerConfig → RegistrationLease
unfolding expect_all
new config = record { clients = expect_all [] config.expected_clients; config = config }

unfoldable pub put : RegistrationLease → Str → ClientState → Option ClientConfig → RegistrationLease
put lease robot_id state config = record lease {
  clients = insert robot_id (record { state = state; config = config }) lease.clients;
}

unfoldable pub state_of : Option ClientEntry → ClientState
state_of none = unknown
state_of (some e) = e.state

unfoldable pub state : RegistrationLease → Str → ClientState
unfolding state_of
state lease robot_id = state_of (lookup robot_id lease.clients)

-- A client that is not in the map takes the default arm, as one that is `expected` does; the test
-- for `expected_clients` decides only what is logged.
unfoldable pub register :
    RegistrationLease → Str → ClientConfig → RegistrationLease × Reply (Unit {0})
unfolding state_of put
register lease robot_id config = elim (state_of (lookup robot_id lease.clients)) [
  | ClientState.poisoned ↦ (lease, err poisoned)
  | registered ↦ (lease, err already_registered)
  | _ ↦ (put lease robot_id registered (some config), ok tt)
]

unfoldable pub deregister : RegistrationLease → Str → RegistrationLease × Reply (Unit {0})
unfolding state_of
deregister lease robot_id = elim (state_of (lookup robot_id lease.clients)) [
  | registered ↦ (record lease { clients = without robot_id lease.clients }, ok tt)
  | ClientState.poisoned ↦ (lease, err poisoned)
  | _ ↦ (lease, err not_registered)
]

unfoldable pub poison : RegistrationLease → Str → RegistrationLease
unfolding put
poison lease robot_id = put lease robot_id poisoned none

unfoldable pub on_liveliness_delete : RegistrationLease → Str → RegistrationLease × Bool
unfolding state_of put
on_liveliness_delete lease robot_id = elim (state_of (lookup robot_id lease.clients)) [
  | registered ↦ (put lease robot_id poisoned none, true)
  | _ ↦ (lease, false)
]
