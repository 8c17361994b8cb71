-- ===== src/Health/Gate.antt =====
-- src/health.rs: `ReadyGate` and the router. The clock's reading is a parameter, as the text
-- `{uptime:.3}`. The counter is an AtomicU64, whose addition wraps.
use flo.Base.{
  ℕ, ◌+◌, ◌%◌, ◌≡◌, Bool, true, false, ◌||◌, Option, none, some, List, [], ◌∷◌, Str, codes, show_ℕ,
  ◌++◌, str_eq, any, if◌then◌else◌, arith,
}

pub record ReadyGate : Type 0 where
  pub ready : Bool
  pub eval_total : ℕ

unfoldable pub new : ReadyGate
new = record { ready = false; eval_total = 0 }

unfoldable pub set_ready : ReadyGate → ReadyGate
set_ready gate = record gate { ready = true }

unfoldable pub is_ready : ReadyGate → Bool
is_ready gate = gate.ready

-- What the engine does with the handle that `eval_counter` gives it.
unfoldable pub count_eval : ReadyGate → ReadyGate
count_eval gate = record gate { eval_total = (gate.eval_total + 1) % 18446744073709551616 }

unfoldable pub metrics_text : Str → ReadyGate → Str
metrics_text uptime gate =
    codes
      "# HELP flo_uptime_seconds seconds since the process started\n# TYPE flo_uptime_seconds gauge\nflo_uptime_seconds "
    ++ (uptime
        ++ (codes
              "\n# HELP flo_process_ready 1 once flo has started and declared its subsystems (ready probe == 200)\n# TYPE flo_process_ready gauge\nflo_process_ready "
            ++ ((if gate.ready then codes "1" else codes "0")
                ++ (codes
                      "\n# HELP flo_rule_eval_total cumulative 50ms engine re-evaluation ticks\n# TYPE flo_rule_eval_total counter\nflo_rule_eval_total "
                    ++ (show_ℕ gate.eval_total ++ codes "\n")))))

pub record Response : Type 0 where
  pub status : ℕ
  pub content_type : Option Str
  pub body : Str

abbrev bare : ℕ → Response
bare status = record { status = status; content_type = none; body = [] }

-- The answer to a GET; `none` where the router has no route.
unfoldable pub respond : Str → ReadyGate → Str → Option Response
unfolding str_eq metrics_text
respond uptime gate path =
    if str_eq path (codes "/healthz")
    then some (bare 200)
    else if str_eq path (codes "/readyz")
    then some (bare (if gate.ready then 200 else 503))
    else if str_eq path (codes "/metrics")
    then some (record {
      status = 200;
      content_type = some (codes "text/plain; version=0.0.4");
      body = metrics_text uptime gate;
    })
    else none

-- What happens to the gate over the life of a process.
pub data GateOp : Type 0 where
  readied : GateOp
  evaluated : GateOp

abbrev pub apply : ReadyGate → GateOp → ReadyGate
apply gate readied = set_ready gate
apply gate evaluated = count_eval gate

abbrev pub after : ReadyGate → List GateOp → ReadyGate
after gate [] = gate
after gate (op ∷ ops) = after (apply gate op) ops

abbrev is_readied : GateOp → Bool
is_readied readied = true
is_readied evaluated = false

after_ready :
    (gate : ReadyGate) (ops : List GateOp)
    → (after gate ops).ready ≡ (gate.ready || any is_readied ops)
unfolding set_ready count_eval
after_ready gate [] = ground arith
after_ready gate (readied ∷ ops) = ground (arith, after_ready (set_ready gate) ops)
after_ready gate (evaluated ∷ ops) = ground (arith, after_ready (count_eval gate) ops)

-- The readiness endpoint of a process answers 200 exactly if the gate has been set ready at some time
-- before, however often the engine has ticked, and 503 otherwise.
readyz_lem :
    (uptime : Str) (ops : List GateOp)
    → respond uptime (after new ops) (codes "/readyz")
      ≡ some (bare (if any is_readied ops then 200 else 503))
unfolding respond str_eq new
readyz_lem uptime ops = ground (arith, after_ready new ops)
