-- ===== src/Server/Installed.antt =====
-- Writeback of wowRPC/WowRPCClient.C and of wowRPC/WowRPCServer.H: what the file of the client
-- holds afterwards, where the kernel is trusted to do what POSIX says.
use wow_so_distributed.Base.{
  ℕ, zero, suc, ◌+◌, ◌-◌, ◌==◌, ℤ, pos, is_minus_one, Option, some, [], ◌∷◌, Bytes, ◌≡◌, refl, ap,
  ◌∙◌, int32, inl, inr, true, false, Bool-cases, is_positive, length, take, min, arith,
}
use wow_so_distributed.Host.{Call, Reply, History, WriteRequest, Env}
use wow_so_distributed.Exec.{Exit, returned, continue}
use wow_so_distributed.Machine.{Process}
use wow_so_distributed.Client.{writeback, chunk_size}
use wow_so_distributed.Client.Chunks.{requests, sent, sent-writeback}
use wow_so_distributed.Server.{WowFsServiceImpl, sys}
use wow_so_distributed.Server.Uploads.{Upload, Round, no_upload, commit, serve_writeback, receive}
use wow_so_distributed.Server.Uploads.Upheld.{
  AllFor, final, tmp, Upholds, IsUpheld, going, failed, receive_first-IsUpheld, settled,
  settle-settled,
}
use wow_so_distributed.Server.Atomic.{last_open}
use wow_so_distributed.Server.Arrival.{put_at, content, serve_writeback-writeback}

-- What the kernel is trusted to do to a file.
pub record Writes (contents : History → Bytes → Option Bytes) : Type 0 where
  -- O_WRONLY | O_CREAT | O_TRUNC
  pub open_empties :
      (path : Bytes) (mode : Option ℕ) (r : Reply) (h : History)
      → is_minus_one r.ret ≡ false
      → contents ((Call.open_file path (pos 577) mode, r) ∷ h) path ≡ some []
  pub pwrite_puts :
      (path : Bytes) (fd : ℤ) (text file : Bytes) (size offset : ℕ) (r : Reply) (h : History)
      → last_open h ≡ some (path, fd)
      → contents h path ≡ some file
      → r.ret ≡ pos size
      → contents ((Call.pwrite fd text size (pos offset), r) ∷ h) path
        ≡ some (put_at offset (take size text) file)
  pub fsync_keeps :
      (p : Bytes) (fd : ℤ) (r : Reply) (h : History)
      → contents ((Call.fsync fd, r) ∷ h) p ≡ contents h p
  pub close_keeps :
      (p : Bytes) (fd : ℤ) (r : Reply) (h : History)
      → contents ((Call.close fd, r) ∷ h) p ≡ contents h p
  pub rename_moves :
      (old new file : Bytes) (r : Reply) (h : History)
      → r.ret ≡ pos 0
      → contents h old ≡ some file
      → contents ((Call.rename old new, r) ∷ h) new ≡ some file

requests-AllFor :
    (fuel : ℕ) (path buf : Bytes) (at remaining : ℕ)
    → AllFor path (requests fuel path buf at remaining)
unfolding requests
requests-AllFor zero path buf at remaining = tt
requests-AllFor (suc fuel) path buf at remaining =
    let e = min chunk_size remaining in
    elim (Bool-cases (remaining - e == 0)) [
      | inl last ↦ rw last (refl, tt)
      | inr more ↦ rw more (refl, requests-AllFor fuel path buf (at + e) (remaining - e))
    ]

module _ (contents : History → Bytes → Option Bytes) (env : Env) (service : WowFsServiceImpl)
    (kernel : Writes contents)
    (written : (h : History) (fd : ℤ) (text : Bytes) (size offset : ℕ)
      → (env.answer h (Call.pwrite fd text size (pos offset))).ret ≡ pos size)
    (opens : (h : History) (path : Bytes)
      → is_minus_one (env.answer h (Call.open_file path (pos 577) (some 511))).ret ≡ false)
    (moves : (h : History) (old new : Bytes) → (env.answer h (Call.rename old new)).ret ≡ pos 0)
    (calm : service.with_crash_on_write ≡ false) (path : Bytes) where
  -- While the temporary file is open, it holds what the calls have written.
  abbrev Good : Upload → History → Type 0
  Good up h =
      is_minus_one up.output_fd ≡ false
      → (last_open h ≡ some (tmp service path, up.output_fd))
        × (contents h (tmp service path) ≡ some (content h))

  upholds : Upholds env service path Good (λ h. ⊥)
  upholds = record {
    re_path = λ req up h good. good;
    opened = λ up h named good well there. (
      rw (well, named.1) refl,
      rw named.1
          (kernel.open_empties (tmp service path) (some 511) _ h (opens h (tmp service path))),
    );
    not_opened = λ up h named good bad. let fine = opens h up.tmp_path in cc;
    wrote = λ req up h n named there good there'. (
      (good there).0,
      kernel.pwrite_puts (tmp service path) up.output_fd req.buf (content h) req.size req.offset _ h
          (good there).0 (good there).1 (written h up.output_fd req.buf req.size req.offset),
    );
    not_wrote = λ req up h named there good bad.
        let full = written h up.output_fd req.buf req.size req.offset in
        let fine = ap is_minus_one full in cc;
  }

  settled_holds :
      (up : Upload) (h : History)
      → contents h (tmp service path) ≡ some (content h)
      → contents (settled env service path up h) (tmp service path)
        ≡ some (content (settled env service path up h))
  settled_holds up h holds = elim (Bool-cases (is_positive up.output_fd)) [
    | inl fd ↦ rw fd (kernel.close_keeps _ _ _ _ ∙ kernel.fsync_keeps _ _ _ _ ∙ holds)
    | inr closed ↦ rw closed holds
  ]

  installed :
      (x : Exit Round × History)
      → IsUpheld env service path Good (λ h. ⊥) upholds x
      → let h = (continue x.0 (commit env service) x.1).1 in
        contents h (final service path) ≡ some (content h)
  unfolding commit sys
  installed _ (failed errno h bad) = absurd bad
  installed _ (going up h named there good) =
      let end = settle-settled env service path up h in
      simp (end, calm, named.0, named.1)
        (kernel.rename_moves (tmp service path) (final service path) _ _ _
          (moves _ (tmp service path) (final service path)) (settled_holds up h (good there).1))

  received :
      (fuel : ℕ) (buf : Bytes) (h : History)
      → IsUpheld env service path Good
          (λ h. ⊥)
          upholds
          (receive env service (requests (suc fuel) path buf 0 (length buf)) (inr no_upload) h)
  unfolding requests
  received fuel buf h =
      receive_first-IsUpheld env service path Good (λ h. ⊥) upholds _ _ h
        (requests-AllFor (suc fuel) path buf 0 (length buf)) (λ there. cc)

  -- What the file at `path` then holds.
  pub serve_writeback_installs :
      (client : Env) (buf : Bytes) (s : Process) (h : History)
      → ((h : History) (req : WriteRequest) → (client.answer h (Call.rpc_write req)).ok ≡ true)
      → sent s.history ≡ []
      → contents
          (serve_writeback env service (sent (writeback client path buf s).1.history) h).1
          (final service path)
        ≡ some buf
  unfolding serve_writeback
  serve_writeback_installs client buf s h accepted fresh =
      let one : length buf + 1 ≡ suc (length buf) = omega arith in
      let (response, whole) =
        serve_writeback-writeback env service written opens client path buf s h accepted calm
          fresh in
      let chunks = sent (writeback client path buf s).1.history in
      let e : chunks ≡ requests (suc (length buf)) path buf 0 (length buf) =
        sent-writeback client accepted path buf s ∙ rw (fresh, one) refl in
      installed (receive env service chunks (inr no_upload) h) (rw e (received (length buf) buf h))
      ∙ ap some whole

  -- When the client's stream takes every chunk and the client has sent no chunk before, and the
  -- server's opens, writes and rename succeed and it is not set to crash, then the requests that
  -- Writeback of the client sends for `buf` make Writeback of the server leave the file at `path`
  -- with exactly the content `buf`, and answer with the length of `buf` (as an int32) and no error.
  -- The kernel is trusted to do what POSIX says of the calls: a pwrite changes the file that was
  -- opened last, when it goes to the descriptor of that open, and a rename moves the content.
  pub serve_writeback_delivers :
      (client : Env) (buf : Bytes) (s : Process) (h : History)
      → ((h : History) (req : WriteRequest) → (client.answer h (Call.rpc_write req)).ok ≡ true)
      → sent s.history ≡ []
      → let y = serve_writeback env service (sent (writeback client path buf s).1.history) h in
        (y.0 ≡ returned (record { ret = int32 (pos (length buf)); server_errno = pos 0 }))
        × (contents y.1 (final service path) ≡ some buf)
  serve_writeback_delivers client buf s h accepted fresh = (
    (serve_writeback-writeback env service written opens client path buf s h accepted calm fresh).0,
    serve_writeback_installs client buf s h accepted fresh,
  )
