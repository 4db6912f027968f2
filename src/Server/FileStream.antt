-- ===== src/Server/FileStream.antt =====
-- ReadFile of wowRPC/WowRPCServer.H against DownloadFile of wowRPC/WowRPCClient.C: the chunks that
-- the one writes are put together by the other.
use wow_so_distributed.Base.{
  ℕ, zero, suc, ◌+◌, ◌-◌, ◌==◌, ◌≤◌, ◌^◌, ◌<◌, ℤ, pos, is_negative, false, [], ◌∷◌, ◌++◌, Bytes,
  length, take, drop, min, replicate, none, is_minus_one, drop-drop, take-append-take, take-take,
  append-nil, append_assoc, ◌≡◌, refl, sym, ap, arith, true, ◌∙◌, int32,
}
use wow_so_distributed.Base.Int.{add_pos}
use wow_so_distributed.Host.{Call, Reply, History, Env}
use wow_so_distributed.Exec.{returned}
use wow_so_distributed.Machine.{Process}
use wow_so_distributed.Client.{RpcResponse, read_chunks, no_response, download_file, chunk_size}
use wow_so_distributed.Cache.Files.{filled}
use wow_so_distributed.Server.{WowFsServiceImpl}
use wow_so_distributed.Server.Downloads.{chunks_from, serve_read_file}

-- What the client's loop has at its end: no error, and `n` bytes counted.
pub record IsRead (end : RpcResponse × ℤ × Bytes) (n : ℕ) (text : Bytes) : Type 0 where
  pub no_error : end.0.server_errno ≡ pos 0
  pub not_negative : is_negative end.0.ret ≡ false
  pub counted : end.1 ≡ pos n
  pub collected : end.2 ≡ text

-- The bytes of one chunk and of those behind it.
chunk-rest :
    (buf : Bytes) (at remaining : ℕ)
    → let e = min remaining chunk_size in
      take e (take e (drop at buf)) ++ take (remaining - e) (drop (at + e) buf)
      ≡ take remaining (drop at buf)
chunk-rest buf at remaining =
    let e = min remaining chunk_size in
    let same : e + (remaining - e) ≡ remaining = omega arith in
    rw (take-take, ← drop-drop, take-append-take, same)

pub read_chunks-chunks_from :
    (fuel : ℕ) (buf : Bytes) (at remaining : ℕ) (response : RpcResponse) (n : ℕ) (text : Bytes)
    → remaining ≤ fuel
    → response.server_errno ≡ pos 0
    → is_negative response.ret ≡ false
    → IsRead
        (read_chunks (chunks_from fuel buf at remaining) response (pos n) text)
        (n + remaining)
        (text ++ take remaining (drop at buf))
unfolding read_chunks chunks_from
read_chunks-chunks_from zero buf at zero response n text enough no_error not_negative =
    let e : n + 0 ≡ n = omega arith in
    rw (append-nil, e)
      (record {
        no_error = no_error;
        not_negative = not_negative;
        counted = refl;
        collected = refl;
      })
read_chunks-chunks_from zero buf at (suc remaining) response n text enough no_error not_negative =
    ground (arith, enough)
read_chunks-chunks_from (suc fuel) buf at zero response n text enough no_error not_negative =
    let e : n + 0 ≡ n = omega arith in
    rw (append-nil, e)
      (record {
        no_error = no_error;
        not_negative = not_negative;
        counted = refl;
        collected = refl;
      })
read_chunks-chunks_from (suc fuel) buf at (suc remaining) response n text enough no_error
      not_negative =
    let e = min (suc remaining) chunk_size in
    let sum : n + suc remaining ≡ n + e + (suc remaining - e) = omega arith in
    let bytes : text ++ take (suc remaining) (drop at buf)
        ≡ (text ++ take e (take e (drop at buf))) ++ take (suc remaining - e) (drop (at + e) buf) =
      rw append_assoc (ap (λ l. text ++ l) (sym (chunk-rest buf at (suc remaining)))) in
    let more : (suc remaining == 0) ≡ false = ground arith in
    rw (sum, bytes, more, add_pos)
      (read_chunks-chunks_from fuel buf (at + e) (suc remaining - e)
        (record { ret = pos e; server_errno = pos 0 }) (n + e)
        (text ++ take e (take e (drop at buf))) (omega (arith, enough)) refl refl)

pub int32_small : (n : ℕ) → n < 2 ^ 31 → int32 (pos (0 + n)) ≡ pos n
int32_small n h = ground (arith, h)

int32_size : (n : ℕ) → n + 100 < 2 ^ 31 → int32 (pos n) ≡ pos n
int32_size n h = ground (arith, h)

take-filled :
    (text : Bytes) (size : ℕ) → length text ≤ size → take (length text) (filled size text) ≡ text
take-filled text size h = front text (replicate (size - length text) 0) size h
  where
    front : (xs ys : Bytes) (n : ℕ) → length xs ≤ n → take (length xs) (take n (xs ++ ys)) ≡ xs
    front [] ys n h = refl
    front (x ∷ xs) ys zero h = ground (arith, h)
    front (x ∷ xs) ys (suc n) h = rw (front xs ys n (omega (arith, h)))

module _ (client : Env) (path : Bytes) (size : ℕ) (s : Process) where
  -- The client's stub call, and its Finish.
  abbrev pub stream : Reply
  stream = client.answer s.history (Call.rpc_read_file path (pos size))

  abbrev pub status : Reply
  status =
      client.answer ((Call.rpc_read_file path (pos size), stream) ∷ s.history) Call.rpc_read_finish

  module _ (buf : Bytes) (count : ℕ) (small : count < 2 ^ 31)
      (sent : stream.messages ≡ chunks_from count buf 0 count) (ok : status.ok ≡ true) where
    received :
        IsRead
          (read_chunks stream.messages no_response (pos 0) [])
          (0 + count)
          ([] ++ take count (drop 0 buf))
    received =
        rw sent (read_chunks-chunks_from count buf 0 count no_response 0 [] (omega arith) refl refl)

    download_file-chunks_from :
        (download_file client path (pos size) s).0
        ≡ returned (record { ret = pos count; server_errno = pos 0 }, take count buf)
    unfolding download_file
    download_file-chunks_from =
        let r = received in
        rw (ok, r.not_negative, r.no_error, r.counted, r.collected, int32_small count small)

  module _ (server : Env) (service : WowFsServiceImpl) (h : History) where
    -- The server's open and pread.
    abbrev pub file : Reply
    file = server.answer h (Call.open_file (service.basedir ++ path) (pos 0) none)

    abbrev pub content : Reply
    content =
        server.answer ((Call.open_file (service.basedir ++ path) (pos 0) none, file) ∷ h)
          (Call.pread file.ret size (pos 0))

    serve_read_file-chunks_from :
        size + 100 < 2 ^ 31
        → is_minus_one file.ret ≡ false
        → content.ret ≡ pos (length content.bytes)
        → (serve_read_file server service path (pos size) h).0
          ≡ returned (
              chunks_from
                (length content.bytes)
                (filled (size + 100) content.bytes)
                0
                (length content.bytes))
    unfolding serve_read_file
    serve_read_file-chunks_from fits found counted = rw (found, int32_size size fits, counted)

    -- When the server can open the file, its pread gives at most the `size` bytes asked for,
    -- `size` + 100 is below 2 ^ 31, and the client gets the messages that the server's handler
    -- writes, with an OK status, then DownloadFile returns exactly the bytes that the server read,
    -- their number and no error.
    pub download_file-serve_read_file :
        is_minus_one file.ret ≡ false
        → content.ret ≡ pos (length content.bytes)
        → length content.bytes ≤ size
        → size + 100 < 2 ^ 31
        → (serve_read_file server service path (pos size) h).0 ≡ returned stream.messages
        → status.ok ≡ true
        → (download_file client path (pos size) s).0
          ≡ returned
              (record { ret = pos (length content.bytes); server_errno = pos 0 }, content.bytes)
    download_file-serve_read_file found counted fits small sent ok =
        let n = length content.bytes in
        let buf = filled (size + 100) content.bytes in
        let written : returned stream.messages ≡ returned (chunks_from n buf 0 n) =
          sym sent ∙ serve_read_file-chunks_from small found counted in
        let messages : stream.messages ≡ chunks_from n buf 0 n = cc in
        let whole : take n buf ≡ content.bytes =
          take-filled content.bytes (size + 100) (omega (arith, fits)) in
        download_file-chunks_from buf n (omega (arith, fits, small)) messages ok
        ∙ ap (λ text. returned (record { ret = pos n; server_errno = pos 0 }, text)) whole
