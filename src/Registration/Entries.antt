-- ===== src/Registration/Entries.antt =====
-- src/registration/lease.rs: which entries the registry can hold, and what a fresh registry holds.
use flo.Base.{
  ◌≡◌, refl, Bool, Option, none, some, List, [], ◌∷◌, Str, Str_eq, Map, any, lookup, insert,
  lookup-insert, lookup-without, if◌then◌else◌, arith, str_eq, ◌≤◌, ◌+◌,
}
use flo.Config.Client.{ClientConfig}
use flo.Config.Server.{ExpectedClient, ServerConfig}
use flo.Registration.Lease.{
  ClientState, unknown, expected, registered, ClientEntry, RegistrationLease, state, register,
  deregister, poison, on_liveliness_delete, new, expect_all,
}
use flo.Registration.LeaseLaws.{Op, registers, deregisters, poisons, deletes, apply}
use flo.Registration.History.{run, tally, joins, leaves, tally-joins-le}

-- A configuration is kept for the registered clients and for no others; `unknown` is the state of
-- an absent client and is never stored.
abbrev pub IsEntry : ClientState → Option ClientConfig → Type 0
IsEntry registered (some c) = Unit
IsEntry expected none = Unit
IsEntry ClientState.poisoned none = Unit
IsEntry _ _ = ⊥

abbrev pub HasEntry : Option ClientEntry → Type 0
HasEntry none = Unit
HasEntry (some e) = IsEntry e.state e.config

pub record IsWellFormed (l : RegistrationLease) : Type 0 where
  pub at : (j : Str) → HasEntry (lookup j l.clients)

-- Every operation keeps the registry well formed.
pub apply-IsWellFormed :
    (l : RegistrationLease) (op : Op) → IsWellFormed l → IsWellFormed (apply l op).0
unfolding apply register deregister poison on_liveliness_delete
apply-IsWellFormed l (registers id c) w = record {
  at = λ j. ground (
    arith,
    w.at j,
    lookup-insert j id (record { state = registered; config = some c }) l.clients,
  );
}
apply-IsWellFormed l (deregisters id) w = record {
  at = λ j. ground (arith, w.at j, lookup-without j id l.clients);
}
apply-IsWellFormed l (poisons id) w = record {
  at = λ j. ground (
    arith,
    w.at j,
    lookup-insert j id (record { state = ClientState.poisoned; config = none }) l.clients,
  );
}
apply-IsWellFormed l (deletes id) w = record {
  at = λ j. ground (
    arith,
    w.at j,
    lookup-insert j id (record { state = ClientState.poisoned; config = none }) l.clients,
  );
}

abbrev is_expected : Str → List ExpectedClient → Bool
is_expected j = any λ e. str_eq e.robot_id j

expect_all-lookup :
    (j : Str) (m : Map Str ClientEntry) (es : List ExpectedClient)
    → lookup j (expect_all m es)
      ≡ (if is_expected j es then some (record { state = expected; config = none }) else lookup j m)
unfolding expect_all
expect_all-lookup j m [] = refl
expect_all-lookup j m (e ∷ es) = ground (
  arith,
  expect_all-lookup j (insert e.robot_id (record { state = expected; config = none }) m) es,
  lookup-insert j e.robot_id (record { state = expected; config = none }) m,
)

-- A fresh registry knows exactly the clients that the configuration expects.
state-new :
    (config : ServerConfig) (j : Str)
    → state (new config) j ≡ (if is_expected j config.expected_clients then expected else unknown)
unfolding state new lookup
state-new config j = ground (arith, expect_all-lookup j [] config.expected_clients)

pub new-IsWellFormed : (config : ServerConfig) → IsWellFormed (new config)
unfolding new lookup
new-IsWellFormed config = record {
  at = λ j. ground (arith, expect_all-lookup j [] config.expected_clients);
}

run-IsWellFormed :
    (l : RegistrationLease) (ops : List Op) → IsWellFormed l → IsWellFormed (run l ops)
unfolding run
run-IsWellFormed l [] w = w
run-IsWellFormed l (op ∷ ops) w = run-IsWellFormed (apply l op).0 ops (apply-IsWellFormed l op w)

-- From a fresh registry, after any history: a client's configuration is on record exactly while the
-- client is registered.
pub run-new-IsWellFormed :
    (config : ServerConfig) (ops : List Op) → IsWellFormed (run (new config) ops)
run-new-IsWellFormed config ops = run-IsWellFormed (new config) ops (new-IsWellFormed config)

-- In a history of a fresh registry a client is accepted at most once more than it has deregistered.
tally-new-joins-le :
    (config : ServerConfig) (ops : List Op) (j : Str)
    → tally (joins j) (new config) ops ≤ tally (leaves j) (new config) ops + 1
tally-new-joins-le config ops j =
    ground (arith, tally-joins-le (new config) ops j, state-new config j)
