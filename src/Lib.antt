-- ===== src/Lib.antt =====
-- A model of flo, which runs declarative safety rules on robots: a robot client registers with the
-- fleet server, receives rule documents, compiles them, and evaluates the compiled rules on the
-- samples of its sensors; all messages go over topics of one naming convention.
--
-- The parts, with the source from the repository's root:
--
-- - Topic: src/topic.rs. A text is a list of code points (`Str`). Grammar holds `canonicalize`,
--   `matches_one_of` and `is_valid_pattern`; Name, Pattern and Acl hold the three validated types
--   with their `try_new`; Builders holds the builders of topics. A builder's `expect`, and the slice
--   in `AclExpr::try_new`, can panic, and a panic is a value here (`Outcome` of Base). Validity,
--   Namespace, Stable, Slashes and Words prove things about these.
-- - Config: src/config.rs. Client is `ClientConfig` with `validate`, Server is
--   `ServerConfig`, and HotReload is `ActiveRules` with the body of the hot-reload loop.
-- - Registration: src/registration/. Lease is `RegistrationLease`: the map of clients with
--   `register`, `deregister`, `poison`, `on_liveliness_delete` and `state`. Every operation of the
--   source holds the write lock from its read to its write, so that it is one step here, and an
--   interleaving of tasks is a list of operations (LeaseLaws, History, Entries). Protocol, Server
--   and Client are transport.rs: the messages, the bodies of the server's three loops for one
--   sample, and the client's two calls over a network that is a parameter. Node puts the three loops
--   on one registry; a task that panics handles no further samples. Exchange and Node prove things
--   about them.
-- - Rules: src/rules.rs. Model is the rule language. Json is serde_json's `Value`.
-- - Engine: src/engine.rs. Eval evaluates predicates, Zones and State are `EvalState` with `ingest`,
--   and Tick is `tick` and `tick_with_arc`: the trigger outcomes of earlier ticks are passed along
--   explicitly, in the order in which the source's short-circuiting iterators reach the triggers.
--   The clock is an argument of `ingest` and `tick`, and the identity of an `Arc` is a number.
--   Reading gives a tick a meaning with no record passed along; EdgeRule, Levels, Absent and
--   Baseline are about triggers of one kind.
-- - Semantic: src/semantic.rs. Model holds the documents, Action the verbs, When `build_when_expr`,
--   Lower `lower`, and Compile `validate`, `compile` and `compile_ruleset`. Meaning says what a
--   condition means with no compilation; LowerSound, BuildSound, CompileSound and TickSound relate
--   the two, up to the actions that the engine fires.
-- - Registry: src/registry.rs. Publish is `publish` on the two tables of the database, and Ownership
--   says who may publish what, Record what is on record after a publish, and Reorder is about the
--   order of the rules. Mutation is src/mutation.rs.
-- - Auth: src/auth.rs. Mode is `AuthMode` and `AuthConfig`, Credentials the checks of the files, and
--   Session the session configuration with its access control. Accepted says what production
--   accepts, FailClosed what a session is configured with, and Coverage which topics the access list
--   reaches.
-- - Transport: src/transport.rs. Settings builds the configurations of the session, and Wire is
--   `publish`, `subscribe` and `declare_liveliness`.
-- - Runtime: src/runtime.rs. Inputs is `build_auth` and `load_inputs`, Retry the registration loop,
--   Bootstrap `bootstrap`, Subsystems `start_common_subsystems` and `run`, and Supervise `supervise`;
--   a client's world is what its attempts act on. FailSafe, Started, LostAck and Ready prove things
--   about them.
-- - Health: src/health.rs. Gate is `ReadyGate` with the endpoints, Probe the health check of a
--   container, Supervisor the supervision of the subsystems, and Tasks what it is applied to: a task
--   is what it has come to.
-- - Signaling: Messages, Delivery and Reception are src/signaling.rs, Mesh and MeshLaws are
--   src/mesh.rs: the sessions with remote robots as steps of the handler's tasks.
--   Video and Ssrc are src/video.rs, the peer of one call and its stream source.
-- - Engine.Subscribe and Engine.Run are the loop of src/engine.rs: the topics it subscribes to, the
--   queues of samples and of actions, and the arms of its `select!` as steps. Flow, Seen and Drain
--   follow a sample through the channel; Order and Canonical are about the list of topics. Config.Loop
--   is the loop of hot reload, Config.Fleet what it keeps to over many updates, and Config.Bootstrap
--   how the store starts. Topic.Isolation is about the topics that all the parts build.
-- - Media: src/codec.rs, src/device.rs and src/media.rs; Capture is also the capture of src/video.rs,
--   and Signaling.Camera the call that uses it. CaptureLaws is about the tasks that a capture spawns,
--   TrackLaws about those that have written to the track.
-- - Cli: src/cli.rs, the arguments and the verdicts of `rule check`. Server: src/server.rs and the
--   binaries in src/bin. Start goes up to the first task, Tasks is the five supervised tasks with the
--   loops of Registration.Node that they spawn, and Unseen and Up say what the supervisor sees and
--   when the server is up. Semantic.Format is the choice of a document's parser.
--
-- Base has the shared types, the text functions and the association lists that stand for hash maps;
-- Examples applies the theorems to concrete inputs. The parts interact as in the source: Semantic
-- and Registration build their topics with Topic, Semantic compiles to the rules that Engine runs,
-- and Registration keeps the configurations of Config.
--
-- Parameters: floating point numbers and serde_json's numbers (`Floats`, with the two laws of
-- `Number::from_f64`), the JSON codec (`Codec`, decoding undoes encoding), `to_lowercase`, the
-- client's network, the TOML parsers, the TOML text of a ruleset, SHA-256 and which SQL statements
-- succeed (`Db`), the file system (`Files`), zenoh's configuration, its session and which keys a
-- pattern takes, what a machine lets the health server bind (`World`), the webrtc crate, GStreamer
-- (`Gst`), the probe's connection, and the clock. Recursion is structural, but for the probe's read
-- loop, which has fuel: 512 reads, enough for the 512 bytes that it reads up to. The registration loop counts down the attempts that the source bounds.
--
-- Not modelled: logging and the texts of error messages (an error is its code and its field path);
-- the parsing of TOML, JSON and the command line, which is serde's and clap's; what is printed;
-- the cancellation of tasks, and the wakers of the readiness gate; binding a socket and serving HTTP;
-- the locators that the binaries print; the threads on which GStreamer delivers its samples.
pub mod Base
pub mod Topic
pub mod Config
pub mod Registration
pub mod Rules
pub mod Engine
pub mod Semantic
pub mod Registry
pub mod Transport
pub mod Auth
pub mod Media
pub mod Cli
pub mod Runtime
pub mod Health
pub mod Signaling
pub mod Server
pub mod Examples
