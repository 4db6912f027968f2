-- ===== src/Inject.antt =====
-- wowFS/unreliablefs/unreliablefs_errinj.c: the error injections.
pub mod Errno
pub mod FuseOps
pub mod TablesA
pub mod TablesB
pub mod ErrnoTable
pub mod BsdErrno
pub mod Freebsd
pub mod Openbsd
pub mod Macosx
pub mod Systems
pub mod Config
pub mod Keeps
pub mod Draws
pub mod Settings
pub mod LastSet
pub mod Chances
use wow_so_distributed.Base.{
  ℕ, ◌+◌, ◌-◌, ◌%◌, ℤ, pos, negsuc, neg, is_minus_one, is_zero, Bool, true, false, not, ◌||◌,
  Option, none, some, List, [], ◌∷◌, Bytes, eq_bytes, leb, length, get_elem?, if◌then◌else◌,
}
use wow_so_distributed.Base.Int.{pos_part}
use wow_so_distributed.Host.{Call, Reply, Env}
use wow_so_distributed.Exec.{pure, gets, modify, ◌>>=◌, ◌>>◌}
use wow_so_distributed.Machine.{
  M, call, Process, ErrinjConf, ErrinjType, errinj_errno, errinj_kill_caller, errinj_noop,
  errinj_slowdown, errinj_wow_reorder_local, errinj_wow_reorder_server, errinj_wow_delay,
  errinj_wow_crash,
}
use wow_so_distributed.Inject.FuseOps.{
  FuseOp, fuse_op_name, op_flush, op_write, op_release, op_open,
}
use wow_so_distributed.Inject.ErrnoTable.{errno_table}
use wow_so_distributed.Inject.Config.{config_init}

-- -ERRNO_NOOP, -ERRNO_WOW_CRASH and the negated codes of unreliablefs.h, as `rc` has them.
abbrev pub noop_code : ℤ
noop_code = pos 999

abbrev pub crash_code : ℤ
crash_code = pos 998

abbrev pub reorder_local_code : ℤ
reorder_local_code = neg (pos 15)

abbrev pub delay_code : ℤ
delay_code = neg (pos 16)

abbrev pub reorder_writeback_code : ℤ
reorder_writeback_code = neg (pos 17)

abbrev pub is_flush_or_write : FuseOp → Bool
is_flush_or_write op_flush = true
is_flush_or_write op_write = true
is_flush_or_write _ = false

abbrev pub is_flush_release_or_open : FuseOp → Bool
is_flush_release_or_open op_flush = true
is_flush_release_or_open op_release = true
is_flush_release_or_open op_open = true
is_flush_release_or_open _ = false

abbrev pub is_write : FuseOp → Bool
is_write op_write = true
is_write _ = false

-- The assignment of conf.errors.
unfoldable pub set_errors : Option (List ErrinjConf) → M (Unit {0})
set_errors errors = modify (λ s. record s { conf = record s.conf { errors = errors } })

module _ (env : Env) where
  -- rand() is never negative.
  unfoldable pub rand_range : ℕ → ℕ → M ℕ
  unfolding call
  rand_range min_n max_n = do
    r ← call env Call.rand
    pure (pos_part r.ret % (max_n - min_n + 1) + min_n)

  unfoldable pub element_or_stray : Option ℕ → M ℤ
  unfolding call
  element_or_stray none = do r ← call env Call.stray_read; pure r.ret
  element_or_stray (some e) = pure (pos e)

  -- RANDOM_ELEMENT: the index may be the array's size, and then what stands behind it is read.
  unfoldable pub random_element : List ℕ → M ℤ
  unfolding rand_range element_or_stray
  random_element arr = do i ← rand_range 0 (length arr); element_or_stray (get_elem? arr i)

  unfoldable pub op_random_errno : FuseOp → M ℤ
  unfolding random_element errno_table
  op_random_errno op = random_element (errno_table op)

  -- 0 is a match. A null pattern matches.
  unfoldable pub is_regex_matched : Option Bytes → Bytes → M ℤ
  unfolding call
  is_regex_matched none string = pure (pos 0)
  is_regex_matched (some regex) string = do
    compiled ← call env (Call.regcomp regex)
    if not (is_zero compiled.ret)
        then pure compiled.ret
        else (do r ← call env (Call.regexec regex string); pure r.ret)

  -- The switch over the type of a triggered injection: the new `rc`.
  unfoldable pub trigger : ErrinjType → ℕ → FuseOp → ℤ → M ℤ
  unfolding call op_random_errno
  trigger errinj_wow_reorder_local duration op rc =
      pure (if is_flush_or_write op then reorder_local_code else rc)
  trigger errinj_wow_reorder_server duration op rc =
      pure (if is_flush_release_or_open op then reorder_writeback_code else rc)
  trigger errinj_wow_delay duration op rc = pure (if is_write op then delay_code else rc)
  trigger errinj_wow_crash duration op rc = pure crash_code
  trigger errinj_noop duration op rc = pure noop_code
  trigger errinj_kill_caller duration op rc = do
    cxt ← call env Call.fuse_get_context
    if cxt.ok then (do call env (Call.kill cxt.ret); pure rc) else pure rc
  trigger errinj_errno duration op rc = do e ← op_random_errno op; pure (neg e)
  trigger errinj_slowdown duration op rc = do call env (Call.nanosleep duration); pure rc

  -- One round of the loop over the configured injections.
  unfoldable pub inject_one : Bytes → FuseOp → ErrinjConf → ℤ → M ℤ
  unfolding rand_range is_regex_matched trigger
  inject_one path op err rc = do
    p ← rand_range 0 100
    if not (leb p err.probability) then pure rc else (do
      path_miss ← is_regex_matched err.path_regexp path
      if not (is_zero path_miss) then pure rc else (do
        op_miss ← is_regex_matched err.op_regexp (fuse_op_name op)
        if not (is_zero op_miss) then pure rc else trigger err.kind err.duration op rc))

  unfoldable pub inject_all : Bytes → FuseOp → List ErrinjConf → ℤ → M ℤ
  unfolding inject_one
  inject_all path op [] rc = pure rc
  inject_all path op (err ∷ rest) rc = do
    rc' ← inject_one path op err rc
    inject_all path op rest rc'

  -- A call on the configuration file itself reads it again.
  unfoldable pub reload : Bytes → M ℤ
  unfolding config_init set_errors
  reload path = do errors ← config_init env path; set_errors errors; pure (pos 0)

  unfoldable pub inject_configured : Bytes → FuseOp → Option (List ErrinjConf) → M ℤ
  unfolding inject_all
  inject_configured path op none = pure (pos 0)
  inject_configured path op (some errors) = inject_all path op errors (pos 0)

  unfoldable pub error_inject : Bytes → FuseOp → M ℤ
  unfolding reload inject_configured
  error_inject path op = do
    conf ← gets (λ s. s.conf)
    if eq_bytes path conf.config_path then reload path else inject_configured path op conf.errors
