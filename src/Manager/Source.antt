-- ===== src/Manager/Source.antt =====
-- shouldFetch of wowFS/unreliablefs/unreliablefs.h: which stat wins.
use wow_so_distributed.Base.{
  pos, is_minus_one, is_negative, Bool, not, ◌&&◌, ◌||◌, Bytes, ◌∷◌, if◌then◌else◌, ◌≡◌, arith,
  true,
}
use wow_so_distributed.Host.{Call, Request, Reply, Env}
use wow_so_distributed.Exec.{returned}
use wow_so_distributed.Machine.{Process}
use wow_so_distributed.Client.{response_of}
use wow_so_distributed.Manager.{
  StatSelect, no_stat, local, remote, StatInfo, zero_stat, mod_time, should_fetch,
  remove_mount_prefix,
}

module _ (env : Env) (path : Bytes) (s : Process) where
  abbrev pub asked : Reply
  asked = env.answer s.history (Call.rpc (Request.download_stat (remove_mount_prefix path)))

  abbrev pub after_rpc : Process
  after_rpc = record s {
    history = (Call.rpc (Request.download_stat (remove_mount_prefix path)), asked) ∷ s.history;
  }

  abbrev pub local_reply : Reply
  local_reply = env.answer after_rpc.history (Call.stat path)

  abbrev pub has_local : Bool
  has_local = not (is_negative local_reply.ret)

  abbrev pub has_remote : Bool
  has_remote = asked.ok && not (is_minus_one asked.ret)

  -- The newer file wins, as the double arithmetic compares the times, and the local one at
  -- equality.
  abbrev pub remote_wins : Bool
  remote_wins =
      has_remote
      && (not has_local || not (env.ge (mod_time env local_reply.stat) (mod_time env asked.stat)))

  abbrev pub specified : StatSelect
  specified = if remote_wins then remote else if has_local then local else no_stat

  abbrev pub specified_info : StatInfo
  specified_info = record {
    stat_data =
        if remote_wins then asked.stat else if has_local then local_reply.stat else zero_stat;
    remote_present = has_remote;
    source = specified;
    error_code = if has_local && not remote_wins then pos 0 else (response_of asked).server_errno;
  }

  -- shouldFetch asks the server and then the local file system, and changes nothing else. It
  -- answers with the server's stat exactly if the server has the file and there is no local file
  -- or the local one has not at least the server's modification time, as the double arithmetic
  -- compares the two; else with the local stat, if there is a local file; else with no stat and
  -- the server's error.
  pub should_fetch_chooses : should_fetch env path s ≡ (
    returned specified_info,
    record after_rpc { history = (Call.stat path, local_reply) ∷ after_rpc.history },
  )
  unfolding should_fetch
  should_fetch_chooses = ground arith

  -- What is found out where the server's file wins.
  abbrev pub remote_info : StatInfo
  remote_info = record {
    stat_data = asked.stat;
    remote_present = true;
    source = remote;
    error_code = (response_of asked).server_errno;
  }

  -- The process behind the two calls of shouldFetch.
  abbrev pub after_stats : Process
  after_stats = record after_rpc { history = (Call.stat path, local_reply) ∷ after_rpc.history }

  pub should_fetch_remote :
      remote_wins ≡ true → should_fetch env path s ≡ (returned remote_info, after_stats)
  unfolding should_fetch
  should_fetch_remote newer = ground (arith, newer)
