-- ===== src/Server/Journey.antt =====
-- From one client to another: Writeback of wowRPC/WowRPCClient.C, then DownloadFile of it, with the
-- handlers of wowRPC/WowRPCServer.H in between.
use wow_so_distributed.Base.{
  ℕ, ◌+◌, ◌≤◌, ◌<◌, ◌^◌, ℤ, pos, is_minus_one, is_positive, is_empty, Option, none, some, [], ◌∷◌,
  ◌++◌, Bytes, ◌≡◌, ap, sym, ◌∙◌, true, false, length,
}
use wow_so_distributed.Host.{Call, History, WriteRequest, Env}
use wow_so_distributed.Exec.{returned}
use wow_so_distributed.Machine.{Process}
use wow_so_distributed.Client.{writeback, download_file}
use wow_so_distributed.Client.Chunks.{sent, sent-writeback}
use wow_so_distributed.Cache.{is_file_dirty, get_file_path_from_fd}
use wow_so_distributed.Manager.{remove_mount_prefix, writeback_to_server}
use wow_so_distributed.Manager.Dirty.{writeback_to_server_dirty}
use wow_so_distributed.Server.{WowFsServiceImpl}
use wow_so_distributed.Server.Uploads.{serve_writeback}
use wow_so_distributed.Server.Downloads.{serve_read_file}
use wow_so_distributed.Server.Installed.{Writes, serve_writeback_installs}
use wow_so_distributed.Server.FileStream.{stream, status, download_file-serve_read_file}

-- What the kernel is trusted to give to a reader: a file that is there can be opened, and a read
-- from its start gives it as a whole, if there is room.
pub record Reads (env : Env) (contents : History → Bytes → Option Bytes) : Type 0 where
  pub opens_there :
      (path text : Bytes) (h : History)
      → contents h path ≡ some text
      → is_minus_one (env.answer h (Call.open_file path (pos 0) none)).ret ≡ false
  pub reads_bytes :
      (path text : Bytes) (size : ℕ) (h : History)
      → contents h path ≡ some text
      → length text ≤ size
      → let o = env.answer h (Call.open_file path (pos 0) none) in
        (env.answer
          ((Call.open_file path (pos 0) none, o) ∷ h)
          (Call.pread o.ret size (pos 0))).bytes
        ≡ text
  pub reads_count :
      (path text : Bytes) (size : ℕ) (h : History)
      → contents h path ≡ some text
      → length text ≤ size
      → let o = env.answer h (Call.open_file path (pos 0) none) in
        (env.answer ((Call.open_file path (pos 0) none, o) ∷ h) (Call.pread o.ret size (pos 0))).ret
        ≡ pos (length text)

module _ (contents : History → Bytes → Option Bytes) (env : Env) (service : WowFsServiceImpl)
    (kernel : Writes contents) (reads : Reads env contents)
    (written : (h : History) (fd : ℤ) (text : Bytes) (size offset : ℕ)
      → (env.answer h (Call.pwrite fd text size (pos offset))).ret ≡ pos size)
    (opens : (h : History) (path : Bytes)
      → is_minus_one (env.answer h (Call.open_file path (pos 577) (some 511))).ret ≡ false)
    (moves : (h : History) (old new : Bytes) → (env.answer h (Call.rename old new)).ret ≡ pos 0)
    (calm : service.with_crash_on_write ≡ false) where
  -- What the server has called after the Writeback.
  abbrev pub after : Env → Bytes → Bytes → Process → History → History
  after writer path buf s h =
      (serve_writeback env service (sent (writeback writer path buf s).1.history) h).1

  -- When one client, which has sent no chunk before, has written `buf` back to `path` over a stream
  -- that takes every chunk, and the server, not set to crash, has handled its requests without a
  -- failed call, then DownloadFile of another client, which gets the messages that ReadFile of the
  -- server writes next, with an OK status, returns exactly `buf`, its length and no error. The size
  -- that the client asks for, plus 100, is below 2 ^ 31 and at least the length of `buf`; the
  -- kernel is trusted to do what POSIX says.
  pub download_file-writeback :
      (writer reader : Env) (path buf : Bytes) (size : ℕ) (s t : Process) (h : History)
      → ((h : History) (req : WriteRequest) → (writer.answer h (Call.rpc_write req)).ok ≡ true)
      → sent s.history ≡ []
      → length buf ≤ size
      → size + 100 < 2 ^ 31
      → (serve_read_file env service path (pos size) (after writer path buf s h)).0
        ≡ returned (stream reader path size t).messages
      → (status reader path size t).ok ≡ true
      → (download_file reader path (pos size) t).0
        ≡ returned (record { ret = pos (length buf); server_errno = pos 0 }, buf)
  download_file-writeback writer reader path buf size s t h accepted fresh room small messages ok =
      let h' = after writer path buf s h in
      let there : contents h' (service.basedir ++ path) ≡ some buf =
        serve_writeback_installs contents env service kernel written opens moves calm path writer
          buf s h accepted fresh in
      let bytes = reads.reads_bytes (service.basedir ++ path) buf size h' there room in
      let count = reads.reads_count (service.basedir ++ path) buf size h' there room in
      let got =
        download_file-serve_read_file reader path size t env service h'
          (reads.opens_there (service.basedir ++ path) buf h' there)
          (count ∙ ap (λ l. pos (length l)) (sym bytes)) (rw bytes room) small messages ok in
      got ∙ ap (λ l. returned (record { ret = pos (length l); server_errno = pos 0 }, l)) bytes

  -- When the WowManager of one client, which has sent no chunk before, writes back a dirty file
  -- whose content its kernel gives as `text`, of less than 2 GiB, over a stream that takes every
  -- chunk, and the server, not set to crash, has handled the requests without a failed call, then
  -- DownloadFile of another client, which gets the messages that ReadFile of the server writes
  -- next, with an OK status, returns for the name of the path on the server exactly `text`, its
  -- length and no error. The size that the client asks for, plus 100, is below 2 ^ 31 and at least
  -- the length of `text`; the kernel is trusted to do what POSIX says.
  pub download_file-writeback_to_server :
      (writer reader : Env) (fd : ℤ) (path text : Bytes) (size : ℕ) (s t : Process) (h : History)
      → length text < 2 ^ 31
      → is_empty (get_file_path_from_fd fd s.cmgr) ≡ false
      → ((h : History)
          → is_positive
              (writer.answer h (Call.open_file (get_file_path_from_fd fd s.cmgr) (pos 0) none)).ret
            ≡ true)
      → ((h : History) (r : ℤ) → (writer.answer h (Call.lseek r (pos 0) 2)).ret ≡ pos (length text))
      → ((h : History) (r : ℤ)
          → (writer.answer h (Call.pread r (length text) (pos 0))).ret ≡ pos (length text))
      → ((h : History) (r : ℤ)
          → (writer.answer h (Call.pread r (length text) (pos 0))).bytes ≡ text)
      → ((h : History) (req : WriteRequest) → (writer.answer h (Call.rpc_write req)).ok ≡ true)
      → is_file_dirty fd s.cmgr ≡ true
      → sent s.history ≡ []
      → length text ≤ size
      → size + 100 < 2 ^ 31
      → (serve_read_file env service
          (remove_mount_prefix path)
          (pos size)
          (serve_writeback env service
            (sent (writeback_to_server writer path fd s).1.history)
            h).1).0
        ≡ returned (stream reader (remove_mount_prefix path) size t).messages
      → (status reader (remove_mount_prefix path) size t).ok ≡ true
      → (download_file reader (remove_mount_prefix path) (pos size) t).0
        ≡ returned (record { ret = pos (length text); server_errno = pos 0 }, text)
  download_file-writeback_to_server writer reader fd path text size s t h fits named opened sized
        counted gave accepted dirty fresh room small messages ok =
      let e : sent (writeback_to_server writer path fd s).1.history
          ≡ sent (writeback writer (remove_mount_prefix path) text s).1.history =
        writeback_to_server_dirty writer fd text s fits named opened sized counted gave path
          accepted dirty
        ∙ sym (sent-writeback writer accepted (remove_mount_prefix path) text s) in
      download_file-writeback writer reader (remove_mount_prefix path) text size s t h accepted
        fresh room small
        (ap
            (λ reqs.
              (serve_read_file env service (remove_mount_prefix path) (pos size)
                (serve_writeback env service reqs h).1).0)
            (sym e)
          ∙ messages)
        ok
