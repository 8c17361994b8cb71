-- ===== src/Cli/Rule.antt =====
-- src/cli.rs: `run_rule_command`. What it prints is left out; a process exit is a verdict.
use flo.Base.{
  Bool, true, false, ◌&&◌, ◌||◌, not, Option, none, some, ◌++◌, Str, codes, all, is_empty,
  if◌then◌else◌, Outcome, ok, err, panic, ◌>>=◌, ok_or,
}
use flo.Rules.Floats.{Floats}
use flo.Rules.Model.{Trigger, Rule, Rules}
use flo.Semantic.Model.{RulesManifest, SemanticError}
use flo.Semantic.Compile.{validate, compile}
use flo.Semantic.Format.{parse_semantic_auto}
use flo.Topic.Name
use flo.Cli.Args.{RuleSubcommand, check}

pub data Verdict (F : Floats) : Type 0 where
  valid : Verdict F
  valid_raw : Verdict F
  -- `exit(1)`, with the error that is reported
  invalid : SemanticError → Verdict F
  compiled : Rules F → Verdict F

-- The files and the parsers; an unreadable file is an error of the command.
pub record Sources (F : Floats) : Type 0 where
  pub read_to_string : Str → Option Str
  pub from_json : Str → Option (RulesManifest F)
  pub from_toml : Str → Option (RulesManifest F)
  pub parse_rules : Str → Option (Rules F)

abbrev not_err : {E A : Type 0} → Outcome E A → Bool
not_err (err e) = false
not_err _ = true

module _ {F : Floats} where
  unfoldable pub is_guarded : Rule F → Bool
  is_guarded r = not (is_empty r.when.all) || not (is_empty r.when.any)

  -- There are rules, and each has a guard.
  unfoldable pub all_guarded : Rules F → Bool
  unfolding is_guarded
  all_guarded rules = not (is_empty rules.rules) && all is_guarded rules.rules

  abbrev has_topic : Trigger F → Bool
  has_topic t = not_err (Name.try_new t.topic)

  abbrev has_topics : Rule F → Bool
  has_topics r = all has_topic (r.when.all ++ r.when.any)

  -- No topic of a trigger is refused.
  unfoldable pub no_bad_topic : Rules F → Bool
  no_bad_topic rules = all has_topics rules.rules

  abbrev pub after_invalid : SemanticError → Option (Rules F) → Outcome Str (Verdict F)
  after_invalid e none = ok (invalid e)
  after_invalid e (some rules) = if all_guarded rules then ok valid_raw else ok (invalid e)

  abbrev pub after_unparsed : SemanticError → Option (Rules F) → Outcome Str (Verdict F)
  after_unparsed e none = ok (invalid e)
  after_unparsed e (some rules) =
      if all_guarded rules && no_bad_topic rules then ok valid_raw else ok (invalid e)

  module _ (src : Sources F) where
    abbrev pub after_validate : Str → Outcome SemanticError (Unit {0}) → Outcome Str (Verdict F)
    after_validate text (ok u) = ok valid
    after_validate text (err e) = after_invalid e (src.parse_rules text)
    after_validate text panic = panic

    abbrev pub after_parse : Str → Outcome SemanticError (RulesManifest F) → Outcome Str (Verdict F)
    after_parse text (ok doc) = after_validate text (validate doc)
    after_parse text (err e) = after_unparsed e (src.parse_rules text)
    after_parse text panic = panic

    unfoldable pub check_text : Str → Outcome Str (Verdict F)
    unfolding parse_semantic_auto all_guarded no_bad_topic
    check_text text = after_parse text (parse_semantic_auto src.from_json src.from_toml text)

    abbrev or_exit : Outcome SemanticError (Rules F) → Outcome Str (Verdict F)
    or_exit (ok rules) = ok (compiled rules)
    or_exit (err e) = ok (invalid e)
    or_exit panic = panic

    unfoldable pub compile_text : Str → Str → Outcome Str (Verdict F)
    unfolding parse_semantic_auto
    compile_text text rid =
        or_exit (do doc ← parse_semantic_auto src.from_json src.from_toml text; compile doc rid)

    abbrev rid_or : Option Str → Str
    rid_or none = codes "7"
    rid_or (some rid) = rid

    unfoldable pub run_rule_command : RuleSubcommand → Outcome Str (Verdict F)
    unfolding check_text compile_text
    run_rule_command (check path json) = do
      text ← ok_or (src.read_to_string path) (codes "cannot read")
      check_text text
    run_rule_command (RuleSubcommand.compile path robot_id json) = do
      text ← ok_or (src.read_to_string path) (codes "cannot read")
      compile_text text (rid_or robot_id)
