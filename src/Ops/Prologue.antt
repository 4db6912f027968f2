-- ===== src/Ops/Prologue.antt =====
-- What the handlers of wowFS/unreliablefs/unreliablefs_ops.c have in common: the call of
-- error_inject and the two early returns in front of the body, and the returns of -errno.
use wow_so_distributed.Base.{
  ℕ, ◌-◌, ◌^◌, ℤ, pos, negsuc, neg, is_zero, is_negative, is_minus_one, int32, eq_ℤ, not, Bytes,
  if◌then◌else◌,
}
use wow_so_distributed.Host.{Call, Reply, Env}
use wow_so_distributed.Exec.{pure, modify, ◌>>=◌}
use wow_so_distributed.Cache.{register_file_dirty, register_file_close}
use wow_so_distributed.Machine.{M, call}
use wow_so_distributed.Inject.{error_inject, noop_code}
use wow_so_distributed.Inject.FuseOps.{FuseOp}

-- `return -errno` behind a failed call, else 0.
abbrev pub zero_or_errno : Reply → ℤ
zero_or_errno r = if is_minus_one r.ret then neg (pos r.errno) else pos 0

-- The same with the test `ret < 0`.
abbrev pub zero_or_errno_neg : Reply → ℤ
zero_or_errno_neg r = if is_negative r.ret then neg (pos r.errno) else pos 0

-- The conversions between uint64_t fi->fh and int.
abbrev pub fd_of : ℕ → ℤ
fd_of fh = int32 (pos fh)

abbrev pub fh_of : ℤ → ℕ
fh_of (pos n) = n
fh_of (negsuc n) = 2 ^ 64 - 1 - n

-- cmgr.registerFileDirty( fd ) and cmgr.registerFileClose( fd )
unfoldable pub mark_dirty : ℤ → M (Unit {0})
mark_dirty fd = modify (λ s. record s { cmgr = register_file_dirty fd s.cmgr })

unfoldable pub mark_closed : ℤ → M (Unit {0})
mark_closed fd = modify (λ s. record s { cmgr = register_file_close fd s.cmgr })

module _ (env : Env) where
  -- `early` makes a handler's result of an early return value.
  unfoldable pub guarded : {A : Type 0} → Bytes → FuseOp → (ℤ → A) → M A → M A
  guarded path op early body = do
    ret ← error_inject env path op
    if eq_ℤ ret noop_code
        then pure (early (pos 0))
        else if not (is_zero ret)
        then pure (early ret)
        else body

  -- A body that makes one call and returns 0 or -errno.
  unfoldable pub one_call : Bytes → FuseOp → Call → M ℤ
  unfolding guarded call
  one_call path op c = guarded path op (λ ret. ret) (do r ← call env c; pure (zero_or_errno r))
