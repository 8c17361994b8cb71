-- ===== src/Cli.antt =====
-- src/cli.rs: the arguments and the `rule` subcommand.
pub mod Args
pub mod Rule
pub mod RuleLaws
