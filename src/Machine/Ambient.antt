-- ===== src/Machine/Ambient.antt =====
-- Predicates on the client process that a call to the outside world and a new list of injections
-- leave true: the history and the configuration do not occur in them.
use wow_so_distributed.Host.{Call, History, Env}
use wow_so_distributed.Exec.Keeps.{Keeps, keeps_rules}
use wow_so_distributed.Machine.{Process, UnreliablefsConfig, call}

pub record IsAmbient (P : Process → Type 0) : Type 0 where
  pub history : (s : Process) (h : History) → P s → P (record s { history = h })
  pub config : (s : Process) (c : UnreliablefsConfig) → P s → P (record s { conf = c })

module _ (env : Env) where
  pub Keeps-call : {P : Process → Type 0} → IsAmbient P → (c : Call) → Keeps P (call env c)
  unfolding call
  Keeps-call amb c = record { at = λ s h. amb.history s _ h }

pub ruleset ambient_rules = (keeps_rules, Keeps-call)
