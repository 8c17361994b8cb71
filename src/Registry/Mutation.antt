-- ===== src/Registry/Mutation.antt =====
-- src/mutation.rs: a ruleset with the digest of its text. SHA-256 and the TOML text are parameters.
use flo.Base.{Bool, Option, Str, str_eq, Outcome, ok, ◌>>=◌, unwrap}
use flo.Rules.Floats.{Floats}
use flo.Rules.Model.{Ruleset}

pub record MutatedRuleset (F : Floats) : Type 0 where
  pub ruleset_of : Ruleset F
  pub sha : Str

module _ (sha256 : Str → Str) where
  unfoldable pub compute_sha : Str → Str
  compute_sha text = sha256 text

  -- `expect`s that the ruleset can be written.
  unfoldable pub mutate_ruleset {ℓ} :
      {E : Type ℓ} {F : Floats}
      → (Ruleset F → Option Str)
      → Ruleset F
      → Outcome E (MutatedRuleset F)
  unfolding compute_sha
  mutate_ruleset to_toml rs = do
    raw_toml ← unwrap (to_toml rs)
    ok (record { ruleset_of = rs; sha = compute_sha raw_toml })

  unfoldable pub is_same_as_last : Str → Str → Bool
  unfolding compute_sha str_eq
  is_same_as_last raw_toml last_sha = str_eq (compute_sha raw_toml) last_sha
