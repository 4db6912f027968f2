-- ===== src/Server/DirStream.antt =====
-- ReadDir of wowRPC/WowRPCServer.H against DownloadDir of wowRPC/WowRPCClient.C.
use wow_so_distributed.Base.{
  ℕ, ◌+◌, ◌<◌, ◌^◌, pos, true, [], ◌∷◌, ◌++◌, Bytes, length, take, drop, take_all, ◌≡◌, refl, sym,
  ◌∙◌, arith,
}
use wow_so_distributed.Host.{Call, Reply, History, Env}
use wow_so_distributed.Exec.{returned}
use wow_so_distributed.Machine.{Process}
use wow_so_distributed.Client.{read_chunks, no_response, download_dir}
use wow_so_distributed.Server.{WowFsServiceImpl}
use wow_so_distributed.Server.Downloads.{chunks_from, read_entries, serve_read_dir}
use wow_so_distributed.Server.FileStream.{IsRead, read_chunks-chunks_from, int32_small}

module _ (client : Env) (path : Bytes) (s : Process) where
  -- The client's stub call, and its Finish.
  abbrev pub stream : Reply
  stream = client.answer s.history (Call.rpc_read_dir path)

  abbrev pub status : Reply
  status = client.answer ((Call.rpc_read_dir path, stream) ∷ s.history) Call.rpc_read_finish

  module _ (server : Env) (service : WowFsServiceImpl) (h : History) where
    -- The server's opendir, and the history after it.
    abbrev pub dir : Reply
    dir = server.answer h (Call.opendir (service.basedir ++ path))

    abbrev pub after_opendir : History
    after_opendir = (Call.opendir (service.basedir ++ path), dir) ∷ h

    serve_read_dir-chunks_from :
        (fuel : ℕ) (buf : Bytes)
        → dir.ok ≡ true
        → (read_entries server service fuel after_opendir).0 ≡ returned buf
        → (serve_read_dir server service fuel path h).0
          ≡ returned (chunks_from (length buf) buf 0 (length buf))
    unfolding serve_read_dir
    serve_read_dir-chunks_from fuel buf found listed = simp (found, listed) refl

    -- When the server can open the directory, the entries that its loop reads are `buf`, less than
    -- 2 GiB, and the client gets the messages that the server's handler writes, with an OK status,
    -- then DownloadDir returns exactly `buf`, its length and no error.
    pub download_dir-serve_read_dir :
        (fuel : ℕ) (buf : Bytes)
        → dir.ok ≡ true
        → (read_entries server service fuel after_opendir).0 ≡ returned buf
        → length buf < 2 ^ 31
        → (serve_read_dir server service fuel path h).0 ≡ returned stream.messages
        → status.ok ≡ true
        → (download_dir client path s).0
          ≡ returned (record { ret = pos (length buf); server_errno = pos 0 }, buf)
    unfolding download_dir
    download_dir-serve_read_dir fuel buf found listed small sent ok =
        let n = length buf in
        let written : returned stream.messages ≡ returned (chunks_from n buf 0 n) =
          sym sent ∙ serve_read_dir-chunks_from fuel buf found listed in
        let messages : stream.messages ≡ chunks_from n buf 0 n = cc in
        let r : IsRead (read_chunks stream.messages no_response (pos 0) []) (0 + n)
            ([] ++ take n (drop 0 buf)) =
          rw messages
            (read_chunks-chunks_from n buf 0 n no_response 0 [] (omega arith) refl refl) in
        let whole : [] ++ take n (drop 0 buf) ≡ buf = take_all n buf (omega arith) in
        rw (ok, r.not_negative, r.no_error, r.counted, r.collected, whole, int32_small n small)
