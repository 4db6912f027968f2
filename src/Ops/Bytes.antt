-- ===== src/Ops/Bytes.antt =====
-- read and write of wowFS/unreliablefs/unreliablefs_ops.c against an array of bytes for each
-- file, over any sequence of calls.
use wow_so_distributed.Base.{
  ℕ, ◌+◌, ◌<◌, ◌^◌, ◌≡◌, refl, ap, ◌∙◌, arith, ℤ, pos, is_minus_one, int32, Bool, true, false, ◌&&◌,
  not, Option, none, some, List, [], ◌∷◌, Bytes, length, get_elem?, eq_bytes,
}
use wow_so_distributed.Host.{Call, History, Reply, Env}
use wow_so_distributed.Exec.{returned}
use wow_so_distributed.Machine.{Process, call}
use wow_so_distributed.LocalReorder.{FuseFileInfo, WriteOp}
use wow_so_distributed.LocalReorder.Disjoint.{descriptor, after_write, after_writes}
use wow_so_distributed.Inject.FuseOps.{op_read, op_write}
use wow_so_distributed.Inject.Draws.{error_inject_off}
use wow_so_distributed.Ops.Prologue.{fd_of, mark_dirty}
use wow_so_distributed.Ops.Io.{
  unreliable_read, unreliable_write, wow_write, open_or_fh, close_if_opened, mark_or_close,
}
use wow_so_distributed.Ops.Reorder.{PutsBytes, is_fine, wow_write-bytes}

-- What the kernel is trusted to give: a read changes nothing, and where every byte of the range is
-- known it gives all of them.
pub record GivesBytes (behind : ℤ → ℤ) (byte : History → ℤ → ℕ → Option ℕ) (env : Env)
    : Type 0 where
  pub pread_keeps :
      (file fd : ℤ) (size i : ℕ) (offset : ℤ) (r : Reply) (h : History)
      → byte ((Call.pread fd size offset, r) ∷ h) file i ≡ byte h file i
  pub pread_counts :
      (fd : ℤ) (offset : ℕ) (text : Bytes) (h : History)
      → ((k : ℕ) → k < length text → byte h (behind fd) (offset + k) ≡ get_elem? text k)
      → (env.answer h (Call.pread fd (length text) (pos offset))).ret ≡ pos (length text)
  pub pread_gives :
      (fd : ℤ) (offset : ℕ) (text : Bytes) (h : History)
      → ((k : ℕ) → k < length text → byte h (behind fd) (offset + k) ≡ get_elem? text k)
      → (env.answer h (Call.pread fd (length text) (pos offset))).bytes ≡ text

-- A request of FUSE for an open file.
pub data Access : Type 0 where
  write : WriteOp → Access
  read : Bytes → ℕ → ℤ → FuseFileInfo → Access

-- The writes among the requests.
abbrev pub writes : List Access → List WriteOp
writes [] = []
writes (write op ∷ rest) = op ∷ writes rest
writes (read path size offset fi ∷ rest) = writes rest

-- A write that pwrite takes, or a read, on a path that is not the one of the configuration.
abbrev pub is_plain : Bytes → Access → Bool
is_plain config_path (write op) = is_fine op && not (eq_bytes op.path config_path)
is_plain config_path (read path size offset fi) =
    not (is_minus_one (fd_of fi.fh)) && not (eq_bytes path config_path)

abbrev pub all_plain : Bytes → List Access → Bool
all_plain config_path [] = true
all_plain config_path (a ∷ rest) = is_plain config_path a && all_plain config_path rest

module _ (env : Env) where
  -- The handlers, one request after the other.
  abbrev pub serve_access : Access → Process → Process
  serve_access (write op) s =
      (unreliable_write env op.path op.buf op.size op.offset (some op.fi) s).1
  serve_access (read path size offset fi) s = (unreliable_read env path size offset (some fi) s).1

  abbrev pub serve_all : List Access → Process → Process
  serve_all [] s = s
  serve_all (a ∷ rest) s = serve_all rest (serve_access a s)

is_fine-valid : (op : WriteOp) → is_fine op ≡ true → is_minus_one (descriptor op) ≡ false
unfolding is_fine
is_fine-valid op fine = ground (arith, fine)

int32-length : (text : Bytes) → length text < 2 ^ 31 → int32 (pos (length text)) ≡ pos (length text)
int32-length text small = ground (arith, small)

module _ (behind : ℤ → ℤ) (byte : History → ℤ → ℕ → Option ℕ) (env : Env)
    (kernel : PutsBytes behind byte) (gives : GivesBytes behind byte env)
    (written : (h : History) (fd : ℤ) (text : Bytes) (size offset : ℕ)
      → (env.answer h (Call.pwrite fd text size (pos offset))).ret ≡ pos size) where
  wow_write-conf :
      (op : WriteOp) (s : Process)
      → is_minus_one (descriptor op) ≡ false
      → (wow_write env op.path op.buf op.size op.offset (some op.fi) s).1.conf ≡ s.conf
  unfolding wow_write open_or_fh mark_or_close mark_dirty call
  wow_write-conf op s valid = simp (valid) refl

  unreliable_write-bytes :
      (op : WriteOp) (s : Process)
      → s.conf.errors ≡ none
      → is_plain s.conf.config_path (write op) ≡ true
      → let s' = (unreliable_write env op.path op.buf op.size op.offset (some op.fi) s).1 in
        (s'.conf ≡ s.conf)
        × ((file : ℤ) (i : ℕ)
            → byte s'.history file i ≡ after_write behind op file i (byte s.history file i))
  unfolding unreliable_write
  unreliable_write-bytes op s off plain =
      let fine : is_fine op ≡ true = ground (arith, plain) in
      let other : eq_bytes op.path s.conf.config_path ≡ false = ground (arith, plain) in
      let (n, done, puts) = wow_write-bytes behind byte env kernel written op s fine in
      rw (error_inject_off env op.path op_write s other off)
        (wow_write-conf op s (is_fine-valid op fine), puts)

  unreliable_read-bytes :
      (path : Bytes) (size : ℕ) (offset : ℤ) (fi : FuseFileInfo) (s : Process)
      → s.conf.errors ≡ none
      → is_plain s.conf.config_path (read path size offset fi) ≡ true
      → let s' = (unreliable_read env path size offset (some fi) s).1 in
        (s'.conf ≡ s.conf) × ((file : ℤ) (i : ℕ) → byte s'.history file i ≡ byte s.history file i)
  unfolding unreliable_read open_or_fh close_if_opened call
  unreliable_read-bytes path size offset fi s off plain =
      let valid : is_minus_one (fd_of fi.fh) ≡ false = ground (arith, plain) in
      let other : eq_bytes path s.conf.config_path ≡ false = ground (arith, plain) in
      rw (error_inject_off env path op_read s other off) (
        simp (valid)
          (refl, λ file i. gives.pread_keeps file (fd_of fi.fh) size i offset _ s.history))

  serve_all-bytes :
      (accesses : List Access) (s : Process)
      → s.conf.errors ≡ none
      → all_plain s.conf.config_path accesses ≡ true
      → let s' = serve_all env accesses s in
        (s'.conf ≡ s.conf)
        × ((file : ℤ) (i : ℕ)
            → byte s'.history file i
              ≡ after_writes behind (writes accesses) file i (byte s.history file i))
  serve_all-bytes [] s off plain = (refl, λ file i. refl)
  serve_all-bytes (write op ∷ rest) s off plain =
      let (kept, puts) = unreliable_write-bytes op s off (ground (arith, plain)) in
      let (kept', all) =
        serve_all-bytes rest (serve_access env (write op) s) (ap (λ c. c.errors) kept ∙ off)
          (rw kept (ground (arith, plain))) in
      (
        kept' ∙ kept,
        λ file i. all file i ∙ ap (after_writes behind (writes rest) file i) (puts file i),
      )
  serve_all-bytes (read path size offset fi ∷ rest) s off plain =
      let (kept, same) = unreliable_read-bytes path size offset fi s off (ground (arith, plain)) in
      let (kept', all) =
        serve_all-bytes rest (serve_access env (read path size offset fi) s)
          (ap (λ c. c.errors) kept ∙ off) (rw kept (ground (arith, plain))) in
      (
        kept' ∙ kept,
        λ file i. all file i ∙ ap (after_writes behind (writes rest) file i) (same file i),
      )

  -- After any sequence of the handlers write and read, without configured injections, a read handler
  -- returns exactly the bytes that an array would hold in its range, for each file one, into which the
  -- writes through any descriptors of the file have put their bytes in order, if those are known: they
  -- were known before or were written. Which file is behind a descriptor is given, and stays the same. The descriptors are not -1, the offsets not negative, the paths not that of the
  -- configuration, no write is of the kill phrase, the range is shorter than 2 GiB, and pwrite is trusted to
  -- write all its bytes, and pread to give all bytes of a range in which every byte is known.
  pub unreliable_read-serve_all :
      (accesses : List Access) (path text : Bytes) (offset : ℕ) (fi : FuseFileInfo) (s : Process)
      → s.conf.errors ≡ none
      → all_plain s.conf.config_path accesses ≡ true
      → is_plain s.conf.config_path (read path (length text) (pos offset) fi) ≡ true
      → length text < 2 ^ 31
      → ((k : ℕ)
          → k < length text
          → after_writes behind
              (writes accesses)
              (behind (fd_of fi.fh))
              (offset + k)
              (byte s.history (behind (fd_of fi.fh)) (offset + k))
            ≡ get_elem? text k)
      → (unreliable_read env path (length text) (pos offset) (some fi) (serve_all env accesses s)).0
        ≡ returned (pos (length text), text)
  unfolding unreliable_read open_or_fh close_if_opened call
  unreliable_read-serve_all accesses path text offset fi s off plain plain_read small known =
      let s' = serve_all env accesses s in
      let (kept, all) = serve_all-bytes accesses s off plain in
      let valid : is_minus_one (fd_of fi.fh) ≡ false = ground (arith, plain_read) in
      let other : eq_bytes path s'.conf.config_path ≡ false =
        rw kept (ground (arith, plain_read)) in
      let holds : (k : ℕ)
          → k < length text
          → byte s'.history (behind (fd_of fi.fh)) (offset + k) ≡ get_elem? text k =
        λ k inside. all (behind (fd_of fi.fh)) (offset + k) ∙ known k inside in
      let count = gives.pread_counts (fd_of fi.fh) offset text s'.history holds in
      let bytes = gives.pread_gives (fd_of fi.fh) offset text s'.history holds in
      let fits = int32-length text small in
      rw (error_inject_off env path op_read s' other (ap (λ c. c.errors) kept ∙ off))
        (simp (valid, count, bytes, fits) refl)
