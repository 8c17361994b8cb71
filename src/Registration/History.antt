-- ===== src/Registration/History.antt =====
-- src/registration/lease.rs: what holds along any history of operations on the registry. The order
-- of the list is the order in which the operations take the lock.
use flo.Base.{
  ℕ, suc, ◌+◌, ◌≤◌, ◌≡◌, Bool, true, false, List, [], ◌∷◌, Str, Str_eq, ◌==◌, if◌then◌else◌, arith,
  str_eq_iff,
}
use flo.Registration.Lease.{
  ClientState, unknown, expected, registered, RegistrationLease, ok, state,
}
use flo.Registration.LeaseLaws.{
  Op, registers, deregisters, poisons, deletes, Answer, replied, apply, apply-refines,
}

unfoldable pub run : RegistrationLease → List Op → RegistrationLease
run l [] = l
run l (op ∷ ops) = run (apply l op).0 ops

-- An accepted registration, and an accepted deregistration, of one client.
abbrev is_ack : Answer → Bool
is_ack (replied (ok _)) = true
is_ack _ = false

abbrev pub joins : Str → Op → Answer → Bool
joins j (registers id c) a = if id == j then is_ack a else false
joins j _ a = false

abbrev pub leaves : Str → Op → Answer → Bool
leaves j (deregisters id) a = if id == j then is_ack a else false
leaves j _ a = false

abbrev pub count_if : Bool → ℕ → ℕ
count_if true n = suc n
count_if false n = n

-- How often an event happens along a history.
unfoldable pub tally : (Op → Answer → Bool) → RegistrationLease → List Op → ℕ
tally p l [] = 0
tally p l (op ∷ ops) = count_if (p op (apply l op).1) (tally p (apply l op).0 ops)

-- Poison is final: no sequence of operations brings a poisoned client back.
pub run-poisoned :
    (l : RegistrationLease) (ops : List Op) (j : Str)
    → state l j ≡ ClientState.poisoned
    → state (run l ops) j ≡ ClientState.poisoned
unfolding run
run-poisoned l [] j h = h
run-poisoned l (op ∷ ops) j h = run-poisoned (apply l op).0 ops j (step op h)
  where
    step :
        (op : Op) → state l j ≡ ClientState.poisoned → state (apply l op).0 j ≡ ClientState.poisoned
    step (registers id c) h =
        ground (arith, (apply-refines l (registers id c) j).1, str_eq_iff id j)
    step (deregisters id) h =
        ground (arith, (apply-refines l (deregisters id) j).1, str_eq_iff id j)
    step (poisons id) h = ground (arith, (apply-refines l (poisons id) j).1, str_eq_iff id j)
    step (deletes id) h = ground (arith, (apply-refines l (deletes id) j).1, str_eq_iff id j)

-- A client that may still join.
abbrev pub credit : ClientState → ℕ
credit unknown = 1
credit expected = 1
credit registered = 0
credit ClientState.poisoned = 0

credit_step :
    (l : RegistrationLease) (op : Op) (j : Str)
    → count_if (joins j op (apply l op).1) (credit (state (apply l op).0 j))
      ≤ count_if (leaves j op (apply l op).1) (credit (state l j))
credit_step l (registers id c) j =
    ground (arith, apply-refines l (registers id c) j, str_eq_iff id j)
credit_step l (deregisters id) j =
    ground (arith, apply-refines l (deregisters id) j, str_eq_iff id j)
credit_step l (poisons id) j = ground (arith, apply-refines l (poisons id) j, str_eq_iff id j)
credit_step l (deletes id) j = ground (arith, apply-refines l (deletes id) j, str_eq_iff id j)

-- A client is accepted at most once more than it has deregistered, and not even that if it is
-- registered or poisoned at the start: two clients never hold one id at a time.
pub tally-joins-le :
    (l : RegistrationLease) (ops : List Op) (j : Str)
    → tally (joins j) l ops ≤ tally (leaves j) l ops + credit (state l j)
unfolding tally
tally-joins-le l [] j = omega arith
tally-joins-le l (op ∷ ops) j =
    let l' = (apply l op).0 in
    add_up (joins j op (apply l op).1) (leaves j op (apply l op).1) (credit (state l j))
      (credit (state l' j)) (tally (joins j) l' ops) (tally (leaves j) l' ops) (credit_step l op j)
      (tally-joins-le l' ops j)
  where
    add_up :
        (p q : Bool) (c d t u : ℕ)
        → count_if p d ≤ count_if q c
        → t ≤ u + d
        → count_if p t ≤ count_if q u + c
    add_up p q c d t u h k = ground arith
