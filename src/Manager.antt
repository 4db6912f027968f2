-- ===== src/Manager.antt =====
-- WowManager of wowFS/unreliablefs/unreliablefs.h.
pub mod Keeps
pub mod Paths
pub mod Source
pub mod Dirty
use wow_so_distributed.Base.{
  ℤ, pos, is_negative, is_minus_one, not, Bool, true, false, Bytes, codes, contains, drop, length,
  if◌then◌else◌,
}
use wow_so_distributed.Host.{Call, Stat, Env, Double}
use wow_so_distributed.Exec.{pure, gets, ◌>>=◌}
use wow_so_distributed.Machine.{M, call}
use wow_so_distributed.Cache.{is_file_dirty}
use wow_so_distributed.Cache.Files
use wow_so_distributed.Client
use wow_so_distributed.Client.{RpcResponse}

pub data StatSelect : Type 0 where
  no_stat local remote : StatSelect

pub record StatInfo : Type 0 where
  pub stat_data : Stat
  pub remote_present : Bool
  pub source : StatSelect
  pub error_code : ℤ

abbrev pub mount_prefix : Bytes
mount_prefix = codes "/tmp/wowfs_local/"

-- The prefix is looked for at any place, and cut off at the front.
unfoldable pub cut_prefix : Bytes → Bytes → Bytes
cut_prefix prefix file_path =
    if not (contains prefix file_path) then file_path else drop (length prefix) file_path

unfoldable pub remove_mount_prefix : Bytes → Bytes
unfolding cut_prefix contains
remove_mount_prefix = cut_prefix mount_prefix

-- `{}` of a struct stat.
abbrev pub zero_stat : Stat
zero_stat = record { mtime_sec = pos 0; mtime_nsec = pos 0; size = pos 0; is_dir = false }

module _ (env : Env) where
  -- (int64_t)tv_sec * 1e9 + tv_nsec, in double arithmetic
  abbrev pub mod_time : Stat → Double
  mod_time st =
      env.add (env.mul (env.of_ℤ st.mtime_sec) (env.of_ℤ (pos 1000000000))) (env.of_ℤ st.mtime_nsec)

  -- What shouldFetch makes of the two stats. The Booleans are localSuccess and remoteSuccess.
  unfoldable pub select_stat : Bool → Bool → Stat → Stat → ℤ → ℤ → StatInfo
  select_stat false false local_stat remote_stat local_error remote_error = record {
    stat_data = zero_stat;
    remote_present = false;
    source = no_stat;
    error_code = remote_error;
  }
  select_stat true false local_stat remote_stat local_error remote_error = record {
    stat_data = local_stat;
    remote_present = false;
    source = local;
    error_code = local_error;
  }
  select_stat false true local_stat remote_stat local_error remote_error = record {
    stat_data = remote_stat;
    remote_present = true;
    source = remote;
    error_code = remote_error;
  }
  select_stat true true local_stat remote_stat local_error remote_error =
      let local_wins = env.ge (mod_time local_stat) (mod_time remote_stat) in
      record {
        stat_data = if local_wins then local_stat else remote_stat;
        remote_present = true;
        source = if local_wins then local else remote;
        error_code = if local_wins then local_error else remote_error;
      }

  unfoldable pub should_fetch : Bytes → M StatInfo
  unfolding call select_stat Client.download_stat remove_mount_prefix
  should_fetch path = do
    (response, remote_stat) ← Client.download_stat env (remove_mount_prefix path) zero_stat
    st ← call env (Call.stat path)
    let local_success = not (is_negative st.ret)
    let local_error = if local_success then pos 0 else pos st.errno
    pure (
        select_stat local_success (not (is_minus_one response.ret)) st.stat remote_stat local_error
          response.server_errno)

  unfoldable pub writeback_to_server : Bytes → ℤ → M Bool
  unfolding Files.read_file Client.writeback remove_mount_prefix
  writeback_to_server path fd = do
    dirty ← gets (λ s. is_file_dirty fd s.cmgr)
    if not dirty then pure true else (do
      (read_status, read_buf) ← Files.read_file env fd
      if read_status
          then (do
            res ← Client.writeback env (remove_mount_prefix path) read_buf
            pure (not (is_minus_one res.ret)))
          else pure true)
