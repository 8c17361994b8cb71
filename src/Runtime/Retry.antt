-- ===== src/Runtime/Retry.antt =====
-- src/runtime.rs: the registration loop of `bootstrap`, with its attempts and its waits. One attempt is
-- a function of the world, which it changes.
use flo.Base.{
  ℕ, zero, suc, ◌+◌, ◌*◌, ◌≤◌, ◌≡◌, ◌↔◌, List, [], ◌∷◌, Str, length, ltb, arith, if◌then◌else◌,
  Outcome, ok, err, panic,
}
use flo.Registration.Lease.{RegistrationError, timeout, server_error}

pub data BootstrapError : Type 0 where
  timed_out : BootstrapError
  already_registered : BootstrapError
  poisoned : BootstrapError
  not_registered : BootstrapError
  rejected : Str → BootstrapError

-- How the loop ends, the world then, and the waits in milliseconds between its attempts.
pub record Ended (W : Type 0) : Type 0 where
  pub world : W
  pub result : Outcome BootstrapError (Unit {0})
  pub waits : List ℕ

abbrev pub registration_retries : ℕ
registration_retries = 3

abbrev pub retry_backoff_ms : ℕ
retry_backoff_ms = 1000

abbrev ended : {W : Type 0} → W → Outcome BootstrapError (Unit {0}) → Ended W
ended w result = record { world = w; result = result; waits = [] }

module _ {W : Type 0} (register : W → W × Outcome RegistrationError (Unit {0})) where
  -- What the loop makes of an attempt: `after` is how the rest of the loop ends.
  abbrev pub on_answer : ℕ → W → Outcome RegistrationError (Unit {0}) → Ended W → Ended W
  on_answer attempt w (ok u) after = ended w (ok u)
  on_answer attempt w (err timeout) after =
      if ltb attempt registration_retries
      then record after { waits = (retry_backoff_ms * attempt) ∷ after.waits }
      else ended w (err timed_out)
  on_answer attempt w (err RegistrationError.already_registered) after =
      ended w (err BootstrapError.already_registered)
  on_answer attempt w (err RegistrationError.poisoned) after = ended w (err BootstrapError.poisoned)
  on_answer attempt w (err RegistrationError.not_registered) after =
      ended w (err BootstrapError.not_registered)
  on_answer attempt w (err (server_error e)) after = ended w (err (rejected e))
  on_answer attempt w panic after = ended w panic

  -- `for attempt in attempt..=REGISTRATION_RETRIES`, of which `left` are left.
  unfoldable pub attempts : ℕ → ℕ → W → Ended W
  attempts zero attempt w = ended w (ok tt)
  attempts (suc left) attempt w =
      let (w', answer) = register w in on_answer attempt w' answer (attempts left (suc attempt) w')

  unfoldable pub register_with_retries : W → Ended W
  unfolding attempts
  register_with_retries w = attempts registration_retries 1 w

  -- The answers of the first attempts.
  abbrev pub answers : ℕ → W → List (Outcome RegistrationError (Unit {0}))
  answers zero w = []
  answers (suc n) w = let (w', answer) = register w in answer ∷ answers n w'

-- An answer confirms, after nothing but timeouts.
abbrev pub Confirmed : List (Outcome RegistrationError (Unit {0})) → Type 0
Confirmed [] = ⊥
Confirmed (ok u ∷ later) = Unit
Confirmed (err timeout ∷ later) = Confirmed later
Confirmed (_ ∷ later) = ⊥

abbrev pub sum : List ℕ → ℕ
sum [] = 0
sum (n ∷ ns) = n + sum ns

module _ {W : Type 0} (register : W → W × Outcome RegistrationError (Unit {0})) where
  pub retries_refused :
      (w w1 w2 : W)
      → register w ≡ (w1, err timeout)
      → register w1 ≡ (w2, err RegistrationError.already_registered)
      → ((register_with_retries register w).result ≡ err already_registered)
        × ((register_with_retries register w).world ≡ w2)
  unfolding register_with_retries attempts
  retries_refused w w1 w2 e1 e2 = ground arith

  -- Bounds: whatever the server answers, the loop ends after at most three attempts (two waits), and
  -- waits no longer than three seconds in all.
  register_with_retries-bounds :
      (w : W)
      → (length (register_with_retries register w).waits ≤ 2)
        × (sum (register_with_retries register w).waits ≤ 3000)
  unfolding register_with_retries attempts
  register_with_retries-bounds w = ground (arith)

  -- The client is let in exactly if one of its first three attempts is confirmed and those before it
  -- timed out.
  pub register_with_retries_iff :
      (w : W)
      → ((register_with_retries register w).result ≡ ok tt) ↔ Confirmed (answers register 3 w)
  unfolding register_with_retries attempts
  register_with_retries_iff w = ground (arith)
