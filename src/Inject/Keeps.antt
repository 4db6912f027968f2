-- ===== src/Inject/Keeps.antt =====
-- error_inject of wowFS/unreliablefs/unreliablefs_errinj.c touches the history and the
-- configuration only.
use wow_so_distributed.Base.{ℕ, ℤ, Option, none, some, List, [], ◌∷◌, Bytes}
use wow_so_distributed.Host.{Env}
use wow_so_distributed.Exec.Keeps.{Keeps}
use wow_so_distributed.Machine.{Process, ErrinjConf, ErrinjType, errinj_errno}
use wow_so_distributed.Machine.Ambient.{IsAmbient, ambient_rules}
use wow_so_distributed.Inject.{
  rand_range, element_or_stray, op_random_errno, is_regex_matched, trigger, inject_one, inject_all,
  set_errors, reload, inject_configured, error_inject,
}
use wow_so_distributed.Inject.FuseOps.{FuseOp}
use wow_so_distributed.Inject.Config.{config_init}

module _ (env : Env) {P : Process → Type 0} (amb : IsAmbient P) where
  Keeps-rand_range : (min_n max_n : ℕ) → Keeps P (rand_range env min_n max_n)
  unfolding rand_range
  Keeps-rand_range min_n max_n = search ambient_rules

  Keeps-element : (e : Option ℕ) → Keeps P (element_or_stray env e)
  unfolding element_or_stray
  Keeps-element none = search ambient_rules
  Keeps-element (some e) = search ambient_rules

  Keeps-op_random_errno : (op : FuseOp) → Keeps P (op_random_errno env op)
  unfolding op_random_errno
  Keeps-op_random_errno op = search (ambient_rules, Keeps-rand_range, Keeps-element)

  Keeps-is_regex_matched : (r : Option Bytes) (s : Bytes) → Keeps P (is_regex_matched env r s)
  unfolding is_regex_matched
  Keeps-is_regex_matched none s = search ambient_rules
  Keeps-is_regex_matched (some r) s = search ambient_rules

  Keeps-trigger :
      (kind : ErrinjType) (duration : ℕ) (op : FuseOp) (rc : ℤ)
      → Keeps P (trigger env kind duration op rc)
  unfolding trigger
  Keeps-trigger errinj_errno duration op rc = search (ambient_rules, Keeps-op_random_errno)
  Keeps-trigger _ duration op rc = search ambient_rules

  Keeps-inject_one :
      (path : Bytes) (op : FuseOp) (err : ErrinjConf) (rc : ℤ)
      → Keeps P (inject_one env path op err rc)
  unfolding inject_one
  Keeps-inject_one path op err rc =
      search (ambient_rules, Keeps-rand_range, Keeps-is_regex_matched, Keeps-trigger) depth 12

  Keeps-inject_all :
      (path : Bytes) (op : FuseOp) (errors : List ErrinjConf) (rc : ℤ)
      → Keeps P (inject_all env path op errors rc)
  unfolding inject_all
  Keeps-inject_all path op [] rc = search ambient_rules
  Keeps-inject_all path op (err ∷ rest) rc =
      search (ambient_rules, Keeps-inject_one, Keeps-inject_all path op rest)

  Keeps-set_errors : (errors : Option (List ErrinjConf)) → Keeps P (set_errors errors)
  unfolding set_errors
  Keeps-set_errors errors = record { at = λ s h. amb.config s _ h }

  Keeps-config_init : (path : Bytes) → Keeps P (config_init env path)
  unfolding config_init
  Keeps-config_init path = search ambient_rules

  Keeps-reload : (path : Bytes) → Keeps P (reload env path)
  unfolding reload
  Keeps-reload path = search (ambient_rules, Keeps-config_init, Keeps-set_errors)

  Keeps-configured :
      (path : Bytes) (op : FuseOp) (errors : Option (List ErrinjConf))
      → Keeps P (inject_configured env path op errors)
  unfolding inject_configured
  Keeps-configured path op none = search ambient_rules
  Keeps-configured path op (some errors) = Keeps-inject_all path op errors _

  pub Keeps-error_inject : (path : Bytes) (op : FuseOp) → Keeps P (error_inject env path op)
  unfolding error_inject
  Keeps-error_inject path op = search (ambient_rules, Keeps-reload, Keeps-configured)
