-- ===== src/Health/Supervisor.antt =====
-- src/health.rs: `Supervisor`. Which subsystem ends first, and how, is an argument.
use flo.Base.{Str, List, [], ◌∷◌, Outcome, ok, err}

-- How a task ends: it returns, or it panics or is cancelled with an error of tokio's.
pub data Exit : Type 0 where
  returned : Exit
  failed : Str → Exit

-- What `join_next` brings: a subsystem's end, or the end of the wrapper itself.
pub data Joined : Type 0 where
  exited : Str → Exit → Joined
  wrapper_panicked : Str → Joined

pub data Fatal : Type 0 where
  subsystem_exited : Str → Exit → Fatal
  supervisor_panicked : Str → Fatal

unfoldable pub fatal_exit : Str → Exit → Outcome Fatal (Unit {0})
fatal_exit subsystem res = err (subsystem_exited subsystem res)

unfoldable pub on_joined : Joined → Outcome Fatal (Unit {0})
unfolding fatal_exit
on_joined (exited name res) = fatal_exit name res
on_joined (wrapper_panicked e) = err (supervisor_panicked e)

-- `joined` is what comes first.
unfoldable pub await_shutdown : List Str → Joined → Outcome Fatal (Unit {0})
unfolding on_joined
await_shutdown [] joined = ok tt
await_shutdown (handle ∷ handles) joined = on_joined joined
