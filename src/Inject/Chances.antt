-- ===== src/Inject/Chances.antt =====
-- wowFS/unreliablefs/unreliablefs_errinj.c: how often an injection triggers, against the manual
-- page wowFS/unreliablefs/unreliablefs.conf.5.
use wow_so_distributed.Base.{◌+◌, ◌%◌, ◌≤◌, ◌≡◌, ℤ, true, none, Bytes, ◌∷◌, leb, refl, arith}
use wow_so_distributed.Base.Int.{pos_part}
use wow_so_distributed.Host.{Call, Reply, Env}
use wow_so_distributed.Machine.{Process, ErrinjConf, call}
use wow_so_distributed.Inject.{trigger, rand_range, is_regex_matched, inject_one}
use wow_so_distributed.Inject.FuseOps.{FuseOp}

module _ (env : Env) (path : Bytes) (op : FuseOp) (err : ErrinjConf) (rc : ℤ) (s : Process) where
  -- What rand gives, and the process after it.
  abbrev pub roll : Reply
  roll = env.answer s.history Call.rand

  abbrev pub after_roll : Process
  after_roll = record s { history = (Call.rand, roll) ∷ s.history }

  inject_one_hit :
      leb (pos_part roll.ret % 101 + 0) err.probability ≡ true
      → err.path_regexp ≡ none
      → err.op_regexp ≡ none
      → inject_one env path op err rc s ≡ trigger env err.kind err.duration op rc after_roll
  unfolding inject_one rand_range call is_regex_matched
  inject_one_hit hit no_path no_op = simp (hit, no_path, no_op) refl

  -- An injection without patterns whose probability is at least 100 triggers on each call, whatever
  -- rand gives.
  pub inject_one_certain :
      100 ≤ err.probability
      → err.path_regexp ≡ none
      → err.op_regexp ≡ none
      → inject_one env path op err rc s ≡ trigger env err.kind err.duration op rc after_roll
  inject_one_certain sure = inject_one_hit (ground (arith, sure))
