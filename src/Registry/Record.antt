-- ===== src/Registry/Record.antt =====
-- src/registry.rs: what an accepted publish leaves on record.
use flo.Base.{
  ◌≡◌, ◌≢◌, refl, sym, ap, ◌∙◌, inl, inr, true, false, Option, none, some, Str, Str_eq, str_eq,
  str_eq_iff, str_eq_refl, lookup, lookup-insert, arith, Option-cases, Bool-cases, ok,
}
use flo.Rules.Floats.{Floats}
use flo.Rules.Model.{Ruleset}
use flo.Semantic.Compile.{is_bad_name}
use flo.Registry.Publish.{
  Row, Registry, Db, RegisterOutcome, updated, rejected_conflict, publish, publish_row,
  ruleset_digest, write_audit,
}
use flo.Registry.Ownership.{first_row, next_row}

module _ {F : Floats} (to_toml : Ruleset F → Option Str) (sha256 : Str → Str) where
  record_lem :
      (d : Db) (ts : Str) (reg : Registry) (rs : Ruleset F) (sha : Str) (o : Option Row)
      {outcome : RegisterOutcome}
      → lookup rs.ruleset_name reg.rows ≡ o
      → (publish_row to_toml sha256 d ts reg rs sha o).1 ≡ ok outcome
      → outcome ≢ rejected_conflict
      → (row : Row) × (lookup rs.ruleset_name (publish_row to_toml sha256 d ts reg rs sha o).0.rows
          ≡ some row)
        × (row.owner ≡ rs.robot_owner)
        × (row.sha ≡ sha)
  unfolding publish_row write_audit
  record_lem d ts reg rs sha none e h other = (
    first_row to_toml sha256 rs sha,
    ground (
      arith,
      h,
      lookup-insert rs.ruleset_name rs.ruleset_name (first_row to_toml sha256 rs sha) reg.rows,
      str_eq_refl rs.ruleset_name,
    ),
    refl,
    refl,
  )
  record_lem d ts reg rs sha (some row) e h other = elim (Bool-cases (str_eq row.sha sha)) [
    | inl t ↦ (
      row,
      ground (arith, h, other, e, t, str_eq_iff row.owner rs.robot_owner),
      ground (arith, h, other, str_eq_iff row.owner rs.robot_owner),
      (str_eq_iff row.sha sha).0 t,
    )
    | inr t ↦ (
      next_row to_toml sha256 rs sha row,
      ground (
        arith,
        h,
        other,
        t,
        lookup-insert rs.ruleset_name rs.ruleset_name (next_row to_toml sha256 rs sha row) reg.rows,
        str_eq_refl rs.ruleset_name,
      ),
      refl,
      refl,
    )
  ]

  pub again_lem :
      (e : Db) (later : Str) (reg : Registry) (rs : Ruleset F) (row : Row)
      → is_bad_name rs.ruleset_name ≡ false
      → ruleset_digest to_toml sha256 rs ≡ some row.sha
      → e.select ≡ true
      → lookup rs.ruleset_name reg.rows ≡ some row
      → row.owner ≡ rs.robot_owner
      → publish to_toml sha256 e later reg rs ≡ (reg, ok (updated row.version row.sha))
  unfolding publish publish_row
  again_lem e later reg rs row name digest up found owner =
      rw (name, digest, up, found)
        (ground (arith, owner, str_eq_refl row.owner, str_eq_refl row.sha))

  publish_at :
      (d : Db) (ts : Str) (reg : Registry) (rs : Ruleset F) (sha : Str)
      → is_bad_name rs.ruleset_name ≡ false
      → ruleset_digest to_toml sha256 rs ≡ some sha
      → d.select ≡ true
      → publish to_toml sha256 d ts reg rs
        ≡ publish_row to_toml sha256 d ts reg rs sha (lookup rs.ruleset_name reg.rows)
  unfolding publish
  publish_at d ts reg rs sha name k on = rw (name, k, on) refl

  -- Where a publish was accepted, the name is good and has a row, with the ruleset's owner and digest.
  pub publish-accepted :
      (d : Db) (ts : Str) (reg : Registry) (rs : Ruleset F) {outcome : RegisterOutcome}
      → (publish to_toml sha256 d ts reg rs).1 ≡ ok outcome
      → outcome ≢ rejected_conflict
      → (row : Row) × (lookup rs.ruleset_name (publish to_toml sha256 d ts reg rs).0.rows
          ≡ some row)
        × (row.owner ≡ rs.robot_owner)
        × (is_bad_name rs.ruleset_name ≡ false)
        × (ruleset_digest to_toml sha256 rs ≡ some row.sha)
  unfolding publish publish_row write_audit
  publish-accepted d ts reg rs h other = elim (Bool-cases (is_bad_name rs.ruleset_name)) [
    | inl bad ↦ absurd (ground (arith, h, bad))
    | inr name ↦ elim (Option-cases (ruleset_digest to_toml sha256 rs)) [
      | inl k ↦ absurd (ground (arith, rw (name, k) at h))
      | inr (sha, k) ↦ elim (Bool-cases d.select) [
        | inl on ↦
            let p = publish_at d ts reg rs sha name k on in
            let (row, found, own, same) =
              record_lem d ts reg rs sha (lookup rs.ruleset_name reg.rows) refl
                (ap (λ r. r.1) (sym p) ∙ h) other in
            (
              row,
              ap (λ r. lookup rs.ruleset_name r.0.rows) p ∙ found,
              own,
              name,
              k ∙ ap some (sym same),
            )
        | inr off ↦ absurd (ground (arith, rw (name, k, off) at h))
      ]
    ]
  ]

  -- Where a publish was accepted, the name has a row, and publishing the same ruleset again, with a
  -- SELECT that succeeds, changes nothing and answers with the version and the digest of that row.
  publish_again :
      (d e : Db) (ts later : Str) (reg : Registry) (rs : Ruleset F) {outcome : RegisterOutcome}
      → (publish to_toml sha256 d ts reg rs).1 ≡ ok outcome
      → outcome ≢ rejected_conflict
      → e.select ≡ true
      → (row : Row) × (lookup rs.ruleset_name (publish to_toml sha256 d ts reg rs).0.rows
          ≡ some row)
        × (publish to_toml sha256 e later (publish to_toml sha256 d ts reg rs).0 rs
            ≡ ((publish to_toml sha256 d ts reg rs).0, ok (updated row.version row.sha)))
  publish_again d e ts later reg rs h other up =
      let (row, found, own, name, digest) = publish-accepted d ts reg rs h other in
      (
        row,
        found,
        again_lem e later (publish to_toml sha256 d ts reg rs).0 rs row name digest up found own,
      )
