-- ===== src/Registry/Reorder.antt =====
-- src/registry.rs: the order of the rules of a ruleset, and its digest.
use mathlib.Core.Logic.{∥∥₁_elim}
use mathlib.Core.List.{Nodup, Nodup-cons, Perm, Permᴰ, mem-cons_self, mem-cast}
use mathlib.Core.List.Perm
use flo.Base.{
  ◌≡◌, ◌≢◌, refl, sym, ap, ◌∙◌, inl, inr, true, not, Option, some, List, [], ◌∷◌, Str, Str_eq,
  lookup, arith, ok, map,
}
use flo.Rules.Floats.{Floats}
use flo.Rules.Model.{Rule, Ruleset}
use flo.Engine.Eval.{str_cmp}
use flo.Engine.Order.{before, before_cases, before_trans, before_irrefl}
use flo.Registry.Publish.{
  Row, Registry, Db, RegisterOutcome, updated, rejected_conflict, comes_before, insert_rule,
  sort_rules, ruleset_digest, canonical_ruleset, publish,
}
use flo.Registry.Record.{publish-accepted, again_lem}

comes_before_lem : (s t : Str) → comes_before (str_cmp s t) ≡ not (before t s)
unfolding str_cmp
comes_before_lem [] [] = refl
comes_before_lem [] (d ∷ t) = refl
comes_before_lem (c ∷ s) [] = refl
comes_before_lem (c ∷ s) (d ∷ t) = ground (arith, comes_before_lem s t)

module _ {F : Floats} where
  insert_lt :
      (r s : Rule F) (rules : List (Rule F))
      → before r.name s.name ≡ true
      → insert_rule r (insert_rule s rules) ≡ insert_rule s (insert_rule r rules)
  unfolding insert_rule
  insert_lt r s [] lt = ground (
    arith,
    lt,
    before_irrefl r.name s.name lt,
    comes_before_lem r.name s.name,
    comes_before_lem s.name r.name,
  )
  insert_lt r s (u ∷ us) lt = ground (
    arith,
    lt,
    before_irrefl r.name s.name lt,
    before_trans u.name r.name s.name,
    comes_before_lem r.name s.name,
    comes_before_lem s.name r.name,
    comes_before_lem r.name u.name,
    comes_before_lem s.name u.name,
    insert_lt r s us lt,
  )

  insert_comm :
      (r s : Rule F) (rules : List (Rule F))
      → r.name ≢ s.name
      → insert_rule r (insert_rule s rules) ≡ insert_rule s (insert_rule r rules)
  insert_comm r s rules other = elim (before_cases r.name s.name) [
    | inl lt ↦ insert_lt r s rules lt
    | inr (inl e) ↦ absurd (other e)
    | inr (inr gt) ↦ sym (insert_lt s r rules gt)
  ]

  -- No two rules have one name.
  abbrev pub HasDistinctNames : List (Rule F) → Type 0
  HasDistinctNames rules = Nodup (map (λ r. r.name) rules)

  distinct_rest :
      (r : Rule F) (rules : List (Rule F)) → HasDistinctNames (r ∷ rules) → HasDistinctNames rules
  distinct_rest r rules h = (Nodup-cons.0 h).1

  sort_permuted :
      (rules other : List (Rule F))
      → Permᴰ rules other
      → HasDistinctNames rules
      → sort_rules rules ≡ sort_rules other
  unfolding sort_rules
  sort_permuted [] [] Permᴰ.nil distinct = refl
  sort_permuted (r ∷ rules) (s ∷ other) (Permᴰ.cons e p) distinct =
      ap (λ x. insert_rule x (sort_rules rules)) e
      ∙ ap (insert_rule s) (sort_permuted rules other p (distinct_rest r rules distinct))
  sort_permuted (r ∷ s ∷ rules) (s' ∷ r' ∷ _) (Permᴰ.swap e f) distinct =
      insert_comm r s (sort_rules rules)
        (λ same. (Nodup-cons.0 distinct).0 (mem-cast same mem-cons_self))
      ∙ ap (λ x. insert_rule x (insert_rule r (sort_rules rules))) f
      ∙ ap (λ x. insert_rule s' (insert_rule x (sort_rules rules))) e
  sort_permuted rules other (Permᴰ.trans {l₂ = mid} p q) distinct =
      let there : HasDistinctNames mid = Perm.nodup (Perm.map (λ r. r.name) ∣ p ∣₁) distinct in
      sort_permuted rules mid p distinct ∙ sort_permuted mid other q there

  module _ (to_toml : Ruleset F → Option Str) (sha256 : Str → Str) where
    digest_permuted :
        (rs : Ruleset F) (other : List (Rule F))
        → Perm rs.rules other
        → HasDistinctNames rs.rules
        → ruleset_digest to_toml sha256 (record rs { rules = other })
          ≡ ruleset_digest to_toml sha256 rs
    unfolding ruleset_digest canonical_ruleset
    digest_permuted rs other permuted distinct =
        ∥∥₁_elim permuted (hlevel) (λ p. rw (sort_permuted rs.rules other p distinct) refl)

    -- Where a publish was accepted and no two rules of the ruleset have one name, publishing it again
    -- with its rules in another order, with a SELECT that succeeds, changes nothing: the answer is the
    -- version and the digest on record.
    pub publish_reordered :
        (d e : Db) (ts later : Str) (reg : Registry) (rs : Ruleset F) (other : List (Rule F))
        {outcome : RegisterOutcome}
        → (publish to_toml sha256 d ts reg rs).1 ≡ ok outcome
        → outcome ≢ rejected_conflict
        → e.select ≡ true
        → HasDistinctNames rs.rules
        → Perm rs.rules other
        → (row : Row) × (lookup rs.ruleset_name (publish to_toml sha256 d ts reg rs).0.rows
            ≡ some row)
          × (publish to_toml sha256 e later
                (publish to_toml sha256 d ts reg rs).0
                (record rs { rules = other })
              ≡ ((publish to_toml sha256 d ts reg rs).0, ok (updated row.version row.sha)))
    publish_reordered d e ts later reg rs other h accepted up distinct permuted =
        let (row, found, own, name, digest) =
          publish-accepted to_toml sha256 d ts reg rs h accepted in
        (
          row,
          found,
          again_lem to_toml sha256 e later (publish to_toml sha256 d ts reg rs).0
              (record rs { rules = other }) row name
              (digest_permuted rs other permuted distinct ∙ digest) up found own,
        )
