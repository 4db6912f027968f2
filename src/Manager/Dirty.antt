-- ===== src/Manager/Dirty.antt =====
-- writebackToServer of wowFS/unreliablefs/unreliablefs.h.
use wow_so_distributed.Base.{
  ◌+◌, ◌-◌, ◌<◌, ◌^◌, ℤ, pos, is_positive, is_negative, is_minus_one, not, int32, true, false, none,
  ◌++◌, Bytes, is_empty, length, take_all, append-nil, ◌≡◌, refl, ap, ◌∙◌, arith,
}
use wow_so_distributed.Host.{Call, History, WriteRequest, Env}
use wow_so_distributed.Exec.{Exit, returned, terminated, continue, pure}
use wow_so_distributed.Client.{writeback}
use wow_so_distributed.Machine.{Process, call}
use wow_so_distributed.Cache.{is_file_dirty, get_file_path_from_fd}
use wow_so_distributed.Cache.Files
use wow_so_distributed.Cache.Files.{filled}
use wow_so_distributed.Client.Chunks.{requests, sent, sent-writeback}
use wow_so_distributed.Manager.{writeback_to_server, remove_mount_prefix}

-- A file that is not dirty is not read and not sent: nothing at all is called.
pub writeback_to_server_clean :
    (env : Env) (path : Bytes) (fd : ℤ) (s : Process)
    → is_file_dirty fd s.cmgr ≡ false
    → writeback_to_server env path fd s ≡ (returned true, s)
unfolding writeback_to_server
writeback_to_server_clean env path fd s clean = rw clean

continue-pure :
    {A B : Type 0} (x : Exit A) (f : A → B) (s : Process) → (continue x (λ a. pure (f a)) s).1 ≡ s
continue-pure (returned a) f s = refl
continue-pure terminated f s = refl

filled_all : (text : Bytes) → filled (length text) text ≡ text
filled_all text =
    let e : length text - length text ≡ 0 = omega arith in
    rw (e, append-nil) (take_all (length text) text (omega arith))

-- The file behind the descriptor, as the client's kernel gives it.
module _ (env : Env) (fd : ℤ) (text : Bytes) (s : Process) (small : length text < 2 ^ 31)
    (named : is_empty (get_file_path_from_fd fd s.cmgr) ≡ false)
    (opens : (h : History)
      → is_positive
          (env.answer h (Call.open_file (get_file_path_from_fd fd s.cmgr) (pos 0) none)).ret
        ≡ true)
    (sizes : (h : History) (r : ℤ)
      → (env.answer h (Call.lseek r (pos 0) 2)).ret ≡ pos (length text))
    (counts : (h : History) (r : ℤ)
      → (env.answer h (Call.pread r (length text) (pos 0))).ret ≡ pos (length text))
    (reads : (h : History) (r : ℤ)
      → (env.answer h (Call.pread r (length text) (pos 0))).bytes ≡ text) where
  read_file_text :
      let x = Files.read_file env fd s in
      (x.0 ≡ returned (true, text)) × (sent x.1.history ≡ sent s.history)
  unfolding Files.read_file Files.read_sized call
  read_file_text =
      let fits : is_negative (int32 (pos (length text))) ≡ false = ground (arith, small) in
      simp (named, opens, sizes, counts, reads, fits, filled_all) (refl, refl)

  -- A writeback of a dirty file sends exactly what the file behind the descriptor holds, as
  -- requests for the name of the path on the server, when the client's kernel opens and reads the
  -- file as a whole, the file is smaller than 2 GiB and the stream takes every chunk.
  pub writeback_to_server_dirty :
      (path : Bytes)
      → ((h : History) (req : WriteRequest) → (env.answer h (Call.rpc_write req)).ok ≡ true)
      → is_file_dirty fd s.cmgr ≡ true
      → sent (writeback_to_server env path fd s).1.history
        ≡ sent s.history
          ++ requests (length text + 1) (remove_mount_prefix path) text 0 (length text)
  unfolding writeback_to_server
  writeback_to_server_dirty path accepted dirty =
      let s' = (Files.read_file env fd s).1 in
      let (done, same) = read_file_text in
      let x = writeback env (remove_mount_prefix path) text s' in
      simp (dirty, done)
        (ap (λ t. sent t.history) (continue-pure x.0 (λ res. not (is_minus_one res.ret)) x.1)
          ∙ sent-writeback env accepted (remove_mount_prefix path) text s'
          ∙ ap
              (λ l. l ++ requests (length text + 1) (remove_mount_prefix path) text 0 (length text))
              same)
