-- ===== src/Ops/Open.antt =====
-- wowFS/unreliablefs/unreliablefs_ops.c: open and create.
use wow_so_distributed.Base.{
  ℤ, pos, neg, is_minus_one, is_zero, eq_ℤ, Bool, true, false, not, Option, none, some, Bytes,
  if◌then◌else◌,
}
use wow_so_distributed.Host.{Call, Env}
use wow_so_distributed.Exec.{pure, modify, ◌>>=◌, ◌>>◌}
use wow_so_distributed.Machine.{M, call}
use wow_so_distributed.LocalReorder.{FuseFileInfo}
use wow_so_distributed.Cache.{register_file_open}
use wow_so_distributed.Cache.Files
use wow_so_distributed.Client
use wow_so_distributed.Manager.{StatSelect, remote, StatInfo, remove_mount_prefix, should_fetch}
use wow_so_distributed.Inject.{error_inject, noop_code, reorder_writeback_code}
use wow_so_distributed.Inject.FuseOps.{op_open, op_creat}
use wow_so_distributed.Ops.Prologue.{guarded, fh_of}
use wow_so_distributed.Ops.Close.{on_file_op}

module _ (env : Env) where
  -- registerFileOpen and `fi->fh = ret`.
  unfoldable pub open_done : Bytes → FuseFileInfo → ℤ → M (ℤ × FuseFileInfo)
  open_done path fi fd = do
    modify (λ s. record s { cmgr = register_file_open fd path s.cmgr })
    pure (pos 0, record fi { fh = fh_of fd })

  -- From constructDirPath on.
  unfoldable pub open_local : Bytes → FuseFileInfo → M (ℤ × FuseFileInfo)
  unfolding call open_done
  open_local path fi = do
    Files.construct_dir_path env path
    opened ← call env (Call.open_file path fi.flags none)
    if is_minus_one opened.ret
        then pure (neg (pos opened.errno), fi)
        else open_done path fi opened.ret

  -- The file is created on the server where that has none. The result is an early return value.
  unfoldable pub ensure_remote : Bytes → FuseFileInfo → Bool → M (Option ℤ)
  ensure_remote path fi true = pure none
  ensure_remote path fi false = do
    response ← Client.open_file env (remove_mount_prefix path) fi.flags
    pure (if is_minus_one response.ret then some (neg response.server_errno) else none)

  -- The server's file is fetched into the cache where it is the newer one, then opened. A failure
  -- to save it is let through.
  unfoldable pub fetch_and_open :
      Bytes → FuseFileInfo → StatInfo → StatSelect → M (ℤ × FuseFileInfo)
  unfolding open_local
  fetch_and_open path fi info remote = do
    (response, read_buf) ← Client.download_file env (remove_mount_prefix path) info.stat_data.size
    if is_minus_one response.ret
        then pure (neg response.server_errno, fi)
        else (do Files.save_to_cache env path read_buf; open_local path fi)
  fetch_and_open path fi info _ = open_local path fi

  unfoldable pub return_or_open : Bytes → FuseFileInfo → StatInfo → Option ℤ → M (ℤ × FuseFileInfo)
  unfolding fetch_and_open
  return_or_open path fi info (some ret) = pure (ret, fi)
  return_or_open path fi info none = fetch_and_open path fi info info.source

  -- Behind the tests of error_inject's result; `fi->fh = 0` first.
  unfoldable pub open_body : Bytes → FuseFileInfo → M (ℤ × FuseFileInfo)
  unfolding ensure_remote return_or_open
  open_body path fi = do
    let cleared = record fi { fh = 0 }
    info ← should_fetch env path
    created ← ensure_remote path cleared info.remote_present
    return_or_open path cleared info created

  -- Any other code than the two is returned.
  unfoldable pub unreliable_open : Bytes → FuseFileInfo → M (ℤ × FuseFileInfo)
  unfolding open_body on_file_op
  unreliable_open path fi = do
    ret ← error_inject env path op_open
    if eq_ℤ ret noop_code
        then pure (pos 0, fi)
        else if eq_ℤ ret reorder_writeback_code
        then (do on_file_op env path; open_body path fi)
        else if not (is_zero ret)
        then pure (ret, fi)
        else open_body path fi

  -- S_IRWXU | S_IRWXG | S_IRWXO is 511.
  unfoldable pub unreliable_create : Bytes → ℤ → FuseFileInfo → M (ℤ × FuseFileInfo)
  unfolding guarded call open_done
  unreliable_create path mode fi =
      guarded env path op_creat (λ ret. (ret, fi))
        (do
          response ← Client.create env (remove_mount_prefix path) mode fi.flags
          if is_minus_one response.ret then pure (neg response.server_errno, fi) else (do
            Files.construct_dir_path env path
            opened ← call env (Call.open_file path fi.flags (some 511))
            if is_minus_one opened.ret
                then pure (neg (pos opened.errno), fi)
                else open_done path fi opened.ret))
