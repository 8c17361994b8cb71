-- ===== src/Registry/Publish.antt =====
-- src/registry.rs: `publish` on the two tables of the database. TOML and SHA-256 are parameters, the
-- clock is an argument, and `Db` says which of the statements of one call succeed. The poisoning of
-- the connection's lock is left out.
use Prim.Native.Nat.{Ordering, gt}
use flo.Base.{
  ℕ, ◌+◌, ◌%◌, Bool, true, false, not, Option, none, some, List, [], ◌∷◌, ◌++◌, Str, Str_eq, codes,
  Map, str_eq, lookup, insert, if◌then◌else◌, Outcome, ok, err,
}
use flo.Rules.Floats.{Floats}
use flo.Rules.Model.{Rule, Ruleset}
use flo.Engine.Eval.{str_cmp}
use flo.Semantic.Compile.{is_bad_name}

pub data RegistryError : Type 0 where
  db bad_name ser : RegistryError

pub data RegisterOutcome : Type 0 where
  inserted : RegisterOutcome
  updated : ℕ → Str → RegisterOutcome
  rejected_conflict : RegisterOutcome

-- A row of the table `registry`, under its name. The version is an i64, here by its 64 bits: `as u64`
-- reads them as they are.
pub record Row : Type 0 where
  pub owner : Str
  pub version : ℕ
  pub sha : Str

pub record AuditRow : Type 0 where
  pub ts : Str
  pub name : Str
  pub owner : Str
  pub version : ℕ
  pub sha : Str
  pub status : Str
  pub blob : Str

pub record Registry : Type 0 where
  pub rows : Map Str Row
  pub audit : List AuditRow

-- Whether the SELECT, the INSERT or UPDATE, and the audit's INSERT succeed.
pub record Db : Type 0 where
  pub select : Bool
  pub write : Bool
  pub log : Bool

-- `ver + 1` of an i64, which wraps around in a release build.
abbrev pub next_version : ℕ → ℕ
next_version version = (version + 1) % 18446744073709551616

abbrev pub Published : Type 0
Published = Registry × Outcome RegistryError RegisterOutcome

abbrev pub comes_before : Ordering → Bool
comes_before gt = false
comes_before _ = true

abbrev digest_of : (Str → Str) → Option Str → Option Str
digest_of sha256 none = none
digest_of sha256 (some text) = some (sha256 text)

module _ {F : Floats} where
  unfoldable pub insert_rule : Rule F → List (Rule F) → List (Rule F)
  insert_rule r [] = r ∷ []
  insert_rule r (s ∷ rs) =
      let rest = insert_rule r rs in
      if comes_before (str_cmp r.name s.name) then r ∷ s ∷ rs else s ∷ rest

  -- `sort_by` the names, which is stable.
  unfoldable pub sort_rules : List (Rule F) → List (Rule F)
  unfolding insert_rule
  sort_rules [] = []
  sort_rules (r ∷ rs) = insert_rule r (sort_rules rs)

  module _ (to_toml : Ruleset F → Option Str) (sha256 : Str → Str) where
    unfoldable pub canonical_ruleset : Ruleset F → Option Str
    unfolding sort_rules
    canonical_ruleset rs = to_toml (record rs { rules = sort_rules rs.rules })

    unfoldable pub ruleset_digest : Ruleset F → Option Str
    unfolding canonical_ruleset
    ruleset_digest rs = digest_of sha256 (canonical_ruleset rs)

    -- `write_audit(..)?` and the outcome after it.
    unfoldable pub write_audit :
        Db → Str → Registry → Ruleset F → ℕ → Str → Str → RegisterOutcome → Published
    write_audit d ts reg rs version sha status outcome = elim (canonical_ruleset rs) [
      | none ↦ (reg, err ser)
      | some blob ↦
          if d.log
          then (
            record reg {
              audit =
                  reg.audit
                  ++ (record {
                    ts = ts;
                    name = rs.ruleset_name;
                    owner = rs.robot_owner;
                    version = version;
                    sha = sha;
                    status = status;
                    blob = blob;
                  }
                      ∷ []);
            },
            ok outcome,
          )
          else (reg, err db)
    ]

    -- The three statements are not one transaction: a row may change with no audit row after it.
    unfoldable pub publish_row : Db → Str → Registry → Ruleset F → Str → Option Row → Published
    unfolding write_audit
    publish_row d ts reg rs sha none =
        if d.write
        then write_audit d ts
            (record reg {
              rows =
                  insert rs.ruleset_name (record { owner = rs.robot_owner; version = 1; sha = sha })
                    reg.rows;
            })
            rs 1 sha (codes "inserted") inserted
        else (reg, err db)
    publish_row d ts reg rs sha (some row) =
        if not (str_eq row.owner rs.robot_owner)
        then write_audit d ts reg rs row.version sha (codes "rejected_conflict") rejected_conflict
        else if str_eq row.sha sha
        then (reg, ok (updated row.version sha))
        else if d.write
        then write_audit d ts
            (record reg {
              rows =
                  insert rs.ruleset_name
                    (record {
                      owner = rs.robot_owner;
                      version = next_version row.version;
                      sha = sha;
                    })
                    reg.rows;
            })
            rs (next_version row.version) sha (codes "updated")
            (updated (next_version row.version) sha)
        else (reg, err db)

    unfoldable pub publish : Db → Str → Registry → Ruleset F → Published
    unfolding publish_row ruleset_digest
    publish d ts reg rs =
        if is_bad_name rs.ruleset_name then (reg, err bad_name) else elim (ruleset_digest rs) [
          | none ↦ (reg, err ser)
          | some sha ↦
              if d.select
              then publish_row d ts reg rs sha (lookup rs.ruleset_name reg.rows)
              else (reg, err db)
        ]
