-- ===== src/Registry/Ownership.antt =====
-- src/registry.rs: who owns a name, and how its version grows.
use flo.Base.{
  ℕ, ◌≡◌, ◌≢◌, refl, ◌⊎◌, inl, inr, Option, none, some, Str, Str_eq, str_eq_iff, codes, lookup,
  lookup-insert, insert, arith, Option-cases, Bool-cases, ok,
}
use flo.Rules.Floats.{Floats}
use flo.Rules.Model.{Ruleset}
use flo.Semantic.Compile.{is_bad_name}
use flo.Registry.Publish.{
  Row, next_version, Registry, Db, RegisterOutcome, inserted, updated, rejected_conflict, publish,
  publish_row, ruleset_digest, write_audit,
}

-- What may become of a row: it keeps its owner, and it is the same, or has another digest and the next
-- version.
abbrev pub Follows : Row → Option Row → Type 0
Follows row none = ⊥
Follows row (some later) =
    (later.owner ≡ row.owner)
    × ((later ≡ row) ⊎ ((later.version ≡ next_version row.version) × (later.sha ≢ row.sha)))

module _ {F : Floats} (to_toml : Ruleset F → Option Str) (sha256 : Str → Str) where
  write_audit-rows :
      (d : Db) (ts : Str) (reg : Registry) (rs : Ruleset F) (v : ℕ) (sha status : Str)
      (outcome : RegisterOutcome)
      → (write_audit to_toml sha256 d ts reg rs v sha status outcome).0.rows ≡ reg.rows
  unfolding write_audit
  write_audit-rows d ts reg rs v sha status outcome = ground arith

  abbrev pub first_row : Ruleset F → Str → Row
  first_row rs sha = record { owner = rs.robot_owner; version = 1; sha = sha }

  abbrev pub next_row : Ruleset F → Str → Row → Row
  next_row rs sha row = record {
    owner = rs.robot_owner;
    version = next_version row.version;
    sha = sha;
  }

  abbrev with_row : Registry → Str → Row → Registry
  with_row reg name row = record reg { rows = insert name row reg.rows }

  publish_row-Follows :
      (d : Db) (ts : Str) (reg : Registry) (rs : Ruleset F) (sha : Str) (o : Option Row)
      (name : Str) (row : Row)
      → lookup rs.ruleset_name reg.rows ≡ o
      → lookup name reg.rows ≡ some row
      → Follows row (lookup name (publish_row to_toml sha256 d ts reg rs sha o).0.rows)
  unfolding publish_row
  publish_row-Follows d ts reg rs sha none name row e h = ground (
    arith,
    h,
    e,
    write_audit-rows d ts (with_row reg rs.ruleset_name (first_row rs sha)) rs 1 sha
        (codes "inserted") inserted,
    lookup-insert name rs.ruleset_name (first_row rs sha) reg.rows,
    str_eq_iff rs.ruleset_name name,
  )
  publish_row-Follows d ts reg rs sha (some old) name row e h = ground (
    arith,
    h,
    e,
    write_audit-rows d ts reg rs old.version sha (codes "rejected_conflict") rejected_conflict,
    write_audit-rows d ts (with_row reg rs.ruleset_name (next_row rs sha old)) rs
        (next_version old.version) sha (codes "updated") (updated (next_version old.version) sha),
    lookup-insert name rs.ruleset_name (next_row rs sha old) reg.rows,
    str_eq_iff rs.ruleset_name name,
    str_eq_iff old.owner rs.robot_owner,
    str_eq_iff old.sha sha,
  )

  -- Whatever is published, by whom, and whichever statements of the database fail, in a build without
  -- overflow checks: a name that is taken keeps its owner, and its row is the old one or has another
  -- digest and the next version, which is one more, up to the wrap-around of 64 bits.
  pub publish-Follows :
      (d : Db) (ts : Str) (reg : Registry) (rs : Ruleset F) (name : Str) {row : Row}
      → lookup name reg.rows ≡ some row
      → Follows row (lookup name (publish to_toml sha256 d ts reg rs).0.rows)
  unfolding publish
  publish-Follows d ts reg rs name {row} h = elim (Bool-cases (is_bad_name rs.ruleset_name)) [
    | inl e ↦ rw (e, h) (refl, inl refl)
    | inr e ↦ elim (Option-cases (ruleset_digest to_toml sha256 rs)) [
      | inl k ↦ rw (e, k, h) (refl, inl refl)
      | inr (sha, k) ↦ elim (Bool-cases d.select) [
        | inl up ↦
            rw (e, k, up)
              (publish_row-Follows d ts reg rs sha (lookup rs.ruleset_name reg.rows) name row refl
                h)
        | inr up ↦ rw (e, k, up, h) (refl, inl refl)
      ]
    ]
  ]

  -- A publish under a name that is taken is answered as an update only if the ruleset names the owner
  -- on record, whichever statements of the database fail.
  pub publish_owner :
      (d : Db) (ts : Str) (reg : Registry) (rs : Ruleset F) {row : Row} {version : ℕ} {sha : Str}
      → lookup rs.ruleset_name reg.rows ≡ some row
      → (publish to_toml sha256 d ts reg rs).1 ≡ ok (updated version sha)
      → row.owner ≡ rs.robot_owner
  unfolding publish publish_row write_audit
  publish_owner d ts reg rs {row} h k = ground (arith, h, k, str_eq_iff row.owner rs.robot_owner)

  pub publish-ne-inserted :
      (d : Db) (ts : Str) (reg : Registry) (rs : Ruleset F) {row : Row}
      → lookup rs.ruleset_name reg.rows ≡ some row
      → ¬ ((publish to_toml sha256 d ts reg rs).1 ≡ ok inserted)
  unfolding publish publish_row write_audit
  publish-ne-inserted d ts reg rs h = λ k. ground (arith, h, k)
