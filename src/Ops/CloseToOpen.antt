-- ===== src/Ops/CloseToOpen.antt =====
-- From one client to another through the handlers of wowFS/unreliablefs/unreliablefs_ops.c: what is
-- written and released by one is what the next one opens and reads, with the client and the server
-- of wowRPC in between.
use wow_so_distributed.Base.{
  ℕ, ◌+◌, ◌≤◌, ◌<◌, ◌^◌, ◌==◌, ℤ, pos, negsuc, not, is_minus_one, is_positive, is_empty, Bool, true,
  false, Option, none, some, [], Bytes, length, ◌≡◌, refl, ap, sym, ◌∙◌, if◌then◌else◌,
}
use wow_so_distributed.Host.{Call, History, WriteRequest, Env}
use wow_so_distributed.Exec.{Exit, returned, terminated, continue, pure, ◌>>=◌, ◌>>◌}
use wow_so_distributed.Machine.{Process, M, call}
use wow_so_distributed.LocalReorder.{FuseFileInfo}
use wow_so_distributed.Cache.{validate, is_file_dirty, get_file_path_from_fd}
use wow_so_distributed.Cache.Files
use wow_so_distributed.Client.Chunks.{sent}
use wow_so_distributed.Manager.{remove_mount_prefix, writeback_to_server}
use wow_so_distributed.Manager.Source.{asked, after_stats, remote_wins}
use wow_so_distributed.Inject.{error_inject}
use wow_so_distributed.Inject.FuseOps.{op_open, op_read, op_release}
use wow_so_distributed.Server.{WowFsServiceImpl}
use wow_so_distributed.Server.Uploads.{serve_writeback}
use wow_so_distributed.Server.Downloads.{serve_read_file}
use wow_so_distributed.Server.Installed.{Writes}
use wow_so_distributed.Server.FileStream.{stream, status}
use wow_so_distributed.Server.Journey.{Reads, download_file-writeback_to_server}
use wow_so_distributed.Ops.Prologue.{fd_of, fh_of, mark_closed, zero_or_errno}
use wow_so_distributed.Ops.Close.{unreliable_release, unreliable_release_impl}
use wow_so_distributed.Ops.Io.{unreliable_read}
use wow_so_distributed.Ops.Open.{unreliable_open}
use wow_so_distributed.Ops.Opens.{last_ret}
use wow_so_distributed.Ops.Fetches.{
  Caches, ReadsOpened, IsOpened, truncates, handle_of, unreliable_open-IsOpened,
  unreliable_read-IsOpened,
}

module _ (env : Env) (path : Bytes) (fi : FuseFileInfo) (given : fi.fh == 0 ≡ false) where
  -- What a release does behind the writeback.
  unfoldable close_written : Bool → M ℤ
  unfolding call mark_closed
  close_written written = if not written then pure (negsuc 0) else (do
    r ← call env (Call.close (fd_of fi.fh))
    mark_closed (fd_of fi.fh)
    pure (zero_or_errno r))

  sent-close_written :
      (r : Exit Bool) (s : Process) → sent (continue r close_written s).1.history ≡ sent s.history
  unfolding close_written call mark_closed
  sent-close_written (returned true) s = refl
  sent-close_written (returned false) s = refl
  sent-close_written terminated s = refl

  sent-unreliable_release_impl :
      (s : Process)
      → sent (unreliable_release_impl env path (some fi) s).1.history
        ≡ sent (writeback_to_server env path (fd_of fi.fh) s).1.history
  unfolding unreliable_release_impl validate close_written
  sent-unreliable_release_impl s =
      let x = writeback_to_server env path (fd_of fi.fh) s in rw given (sent-close_written x.0 x.1)

  sent-unreliable_release :
      (s t : Process)
      → error_inject env path op_release s ≡ (returned (pos 0), t)
      → sent (unreliable_release env path fi s).1.history
        ≡ sent (writeback_to_server env path (fd_of fi.fh) t).1.history
  unfolding unreliable_release
  sent-unreliable_release s t calm = rw calm (sent-unreliable_release_impl t)

-- The server, and the kernel below it.
module _ (served : History → Bytes → Option Bytes) (server : Env) (service : WowFsServiceImpl)
    (disk : Writes served) (reads : Reads server served)
    (written : (h : History) (fd : ℤ) (text : Bytes) (size offset : ℕ)
      → (server.answer h (Call.pwrite fd text size (pos offset))).ret ≡ pos size)
    (creates : (h : History) (path : Bytes)
      → is_minus_one (server.answer h (Call.open_file path (pos 577) (some 511))).ret ≡ false)
    (moves : (h : History) (old new : Bytes) → (server.answer h (Call.rename old new)).ret ≡ pos 0)
    (calm : service.with_crash_on_write ≡ false) where
  -- The second client, and the kernel below it.
  module _ (cached : History → Bytes → Option Bytes) (reader : Env) (kernel : Caches cached)
      (path : Bytes) (absolute : Files.is_absolute path ≡ true)
      (makes : (h : History) (dir : Bytes)
        → (reader.answer h (Call.create_directories dir)).ok ≡ true)
      (streams : (h : History) → (reader.answer h (Call.fopen path)).ok ≡ true)
      (puts : (h : History) (text : Bytes)
        → (reader.answer h (Call.fwrite text)).ret ≡ pos (length text))
      (new : FuseFileInfo) (keeps : truncates new.flags ≡ false)
      (opens : (h : History)
        → is_minus_one (reader.answer h (Call.open_file path new.flags none)).ret ≡ false) where
    -- The calls that the server has made when it has handled what the writer's release sent.
    abbrev pub after_release : Env → FuseFileInfo → Process → History → History
    after_release writer old s h =
        (serve_writeback server service (sent (unreliable_release writer path old s).1.history) h).1

    -- The writer's release, and the reader's open of the file.
    module _ (writer : Env) (old : FuseFileInfo) (text : Bytes) (size : ℕ) (s0 s t0 t : Process)
        (h : History) (fits : length text < 2 ^ 31) (given : old.fh == 0 ≡ false)
        (released : error_inject writer path op_release s0 ≡ (returned (pos 0), s))
        (named : is_empty (get_file_path_from_fd (fd_of old.fh) s.cmgr) ≡ false)
        (opened : (h : History)
          → is_positive
              (writer.answer h
                (Call.open_file (get_file_path_from_fd (fd_of old.fh) s.cmgr) (pos 0) none)).ret
            ≡ true)
        (sized : (h : History) (r : ℤ)
          → (writer.answer h (Call.lseek r (pos 0) 2)).ret ≡ pos (length text))
        (counted : (h : History) (r : ℤ)
          → (writer.answer h (Call.pread r (length text) (pos 0))).ret ≡ pos (length text))
        (gave : (h : History) (r : ℤ)
          → (writer.answer h (Call.pread r (length text) (pos 0))).bytes ≡ text)
        (accepted : (h : History) (req : WriteRequest)
          → (writer.answer h (Call.rpc_write req)).ok ≡ true)
        (dirty : is_file_dirty (fd_of old.fh) s.cmgr ≡ true) (fresh : sent s.history ≡ [])
        (quiet : error_inject reader path op_open t0 ≡ (returned (pos 0), t))
        (newer : remote_wins reader path t ≡ true)
        (asked_size : (asked reader path t).stat.size ≡ pos size) (room : length text ≤ size)
        (small : size + 100 < 2 ^ 31)
        (messages : (serve_read_file server service
            (remove_mount_prefix path)
            (pos size)
            (after_release writer old s0 h)).0
          ≡ returned
              (stream reader (remove_mount_prefix path) size (after_stats reader path t)).messages)
        (ok : (status reader (remove_mount_prefix path) size (after_stats reader path t)).ok
          ≡ true) where
      -- When the handler release of one client, without an injection, has written back a dirty file
      -- whose content its kernel gives as `text`, of less than 2 GiB, over a stream that takes every
      -- chunk (the first that it sends), and the server, not set to crash, has handled the requests
      -- without a failed call, then the handler open of another client for the same path, without
      -- an injection, succeeds: it hands out the descriptor that its last call returned, registered
      -- as clean under the path, and its cached file at the path is exactly `text`. The server's
      -- modification time must win over that of the reader's cached file, if it has one, the size
      -- that the server states, plus 100, be below 2 ^ 31 and at least the length of `text`, the
      -- reader get the messages that ReadFile of the server writes, with an OK status, and its local
      -- calls succeed, with flags without O_TRUNC; both kernels are trusted to do what POSIX says.
      pub unreliable_open-unreliable_release :
          IsOpened cached path text new.flags (unreliable_open reader path new t0)
      unreliable_open-unreliable_release =
          let e = sent-unreliable_release writer path old given s0 s released in
          unreliable_open-IsOpened cached reader kernel path absolute makes streams puts new t0 t
            text (record { ret = pos (length text); server_errno = pos 0 }) keeps opens quiet newer
            (rw asked_size (
              download_file-writeback_to_server served server service disk reads written creates
                moves calm writer reader (fd_of old.fh) path text size s (after_stats reader path t)
                h fits named opened sized counted gave accepted dirty fresh room small
                (ap
                    (λ reqs.
                      (serve_read_file server service (remove_mount_prefix path) (pos size)
                        (serve_writeback server service reqs h).1).0)
                    (sym e)
                  ∙ messages)
                ok))
            refl

      -- The reader when it has opened the file.
      abbrev pub after_open : Process
      after_open = (unreliable_open reader path new t0).1

      -- When the handler release of one client, without an injection, has written back a dirty
      -- file whose content its kernel gives as `text`, of less than 2 GiB, over a stream that
      -- takes every chunk (the first that it sends), and the server, not set to crash, has handled
      -- the requests without a failed call, then another client that opens the same path with the
      -- handler open, and reads what was handed out with the handler read, from the start and with
      -- room for `text`, both without an injection, gets exactly `text` and its length. The
      -- server's modification time must win over that of the reader's cached file, if it has one,
      -- the size that the server states, plus 100, be below 2 ^ 31 and at least the length of
      -- `text`, the reader get the messages that ReadFile of the server writes, with an OK status,
      -- its local calls succeed, with flags without O_TRUNC and a descriptor that is an int; both
      -- kernels are trusted to do what POSIX says.
      pub unreliable_read-unreliable_release :
          (count : ℕ)
          → ReadsOpened cached reader
          → fd_of (fh_of (last_ret after_open.history)) ≡ last_ret after_open.history
          → error_inject reader path op_read after_open ≡ (returned (pos 0), after_open)
          → length text ≤ count
          → (unreliable_read reader path count
              (pos 0)
              (some (handle_of new.flags after_open))
              after_open).0
            ≡ returned (pos (length text), text)
      unreliable_read-unreliable_release count gives int calm_read wide =
          unreliable_read-IsOpened cached reader gives path text new.flags count
            (unreliable_open reader path new t0) unreliable_open-unreliable_release int calm_read
            wide fits
