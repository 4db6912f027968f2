-- ===== src/Ops/FetchFails.antt =====
-- open of wowFS/unreliablefs/unreliablefs_ops.c where the file of the server cannot be fetched, or be
-- made there.
use wow_so_distributed.Base.{pos, neg, is_minus_one, true, false, Bytes, ◌∷◌, ◌≡◌, refl}
use wow_so_distributed.Host.{Call, Request, Reply, Env}
use wow_so_distributed.Exec.{returned}
use wow_so_distributed.Machine.{Process}
use wow_so_distributed.LocalReorder.{FuseFileInfo}
use wow_so_distributed.Client
use wow_so_distributed.Client.{RpcResponse, response_of}
use wow_so_distributed.Manager.{remove_mount_prefix}
use wow_so_distributed.Manager.Source.{
  asked, after_stats, remote_wins, has_remote, should_fetch_remote, should_fetch_chooses,
}
use wow_so_distributed.Inject.{error_inject}
use wow_so_distributed.Inject.FuseOps.{op_open}
use wow_so_distributed.Ops.Open.{
  ensure_remote, fetch_and_open, return_or_open, open_body, unreliable_open,
}

-- The server's answer to the request to open a file that it did not have.
abbrev pub opened_there : Env → Bytes → FuseFileInfo → Process → Reply
opened_there env path fi t =
    env.answer (after_stats env path t).history
      (Call.rpc (Request.open_file (remove_mount_prefix path) fi.flags))

module _ (env : Env) (path : Bytes) (fi : FuseFileInfo) (s t : Process)
    (calm : error_inject env path op_open s ≡ (returned (pos 0), t)) where
  -- When open, without an injection, is for a file of which the server's version wins by its
  -- modification time, and the download ends with -1, then open returns the negated error of the server
  -- with no descriptor, and the download is the last that it does.
  pub unreliable_open_unfetched :
      (response : RpcResponse) (text : Bytes)
      → remote_wins env path t ≡ true
      → let x =
          Client.download_file env
            (remove_mount_prefix path)
            (asked env path t).stat.size
            (after_stats env path t) in
        x.0 ≡ returned (response, text)
        → is_minus_one response.ret ≡ true
        → unreliable_open env path fi s
          ≡ (returned (neg response.server_errno, record fi { fh = 0 }), x.1)
  unfolding unreliable_open open_body ensure_remote return_or_open fetch_and_open
  unreliable_open_unfetched response text newer got bad =
      rw (calm, should_fetch_remote env path t newer) (simp (got, bad) refl)

  -- When open, without an injection, is for a file that the server does not have, and the server
  -- answers the request to open it with -1, or cannot be reached, then open returns the negated error
  -- with no descriptor, and the request is the last call that it makes.
  pub unreliable_open_refused :
      has_remote env path t ≡ false
      → is_minus_one (response_of (opened_there env path fi t)).ret ≡ true
      → unreliable_open env path fi s ≡ (
        returned
            (neg (response_of (opened_there env path fi t)).server_errno, record fi { fh = 0 }),
        record (after_stats env path t) {
          history =
              (
                Call.rpc (Request.open_file (remove_mount_prefix path) fi.flags),
                opened_there env path fi t,
              )
              ∷ (after_stats env path t).history;
        },
      )
  unfolding unreliable_open open_body ensure_remote return_or_open Client.open_file
  unreliable_open_refused absent bad =
      rw (calm, should_fetch_chooses env path t) (simp (absent) (simp (bad) refl))
