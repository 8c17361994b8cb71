-- ===== src/Semantic/Format.antt =====
-- src/semantic.rs: the format of a document is read off its first character. The two parsers are
-- parameters; the text of their error is not modelled.
use flo.Base.{Option, Str, is_whitespace, nat_eq, [], ◌∷◌, if◌then◌else◌, Outcome, ok_or}
use flo.Rules.Floats.{Floats}
use flo.Semantic.Model.{RulesManifest, SemanticError, error, parse}

pub data Format : Type 0 where
  json : Format
  toml : Format

-- `trim().starts_with('{')`
unfoldable pub guess_format : Str → Format
guess_format [] = toml
guess_format (c ∷ s) =
    let later = guess_format s in
    if is_whitespace c then later else if nat_eq c b'{' then json else toml

module _ {F : Floats} (from_json from_toml : Str → Option (RulesManifest F)) where
  abbrev parsed : Option (RulesManifest F) → Outcome SemanticError (RulesManifest F)
  parsed doc = ok_or doc (error parse)

  unfoldable pub parse_semantic : Str → Outcome SemanticError (RulesManifest F)
  parse_semantic text = parsed (from_toml text)

  unfoldable pub parse_semantic_json : Str → Outcome SemanticError (RulesManifest F)
  parse_semantic_json text = parsed (from_json text)

  abbrev by_format : Str → Format → Outcome SemanticError (RulesManifest F)
  by_format text json = parse_semantic_json text
  by_format text toml = parse_semantic text

  unfoldable pub parse_semantic_auto : Str → Outcome SemanticError (RulesManifest F)
  unfolding guess_format parse_semantic parse_semantic_json
  parse_semantic_auto text = by_format text (guess_format text)
