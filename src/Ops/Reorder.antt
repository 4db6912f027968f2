-- ===== src/Ops/Reorder.antt =====
-- The part of flush in wowFS/unreliablefs/unreliablefs_ops.c that writes the recorded writes: what it
-- leaves in the files, in the order of the queue and in a shuffled one.
use wow_so_distributed.Base.{
  ℕ, ◌≤◌, ◌≡◌, refl, sym, ap, ◌∙◌, arith, ℤ, pos, negsuc, is_minus_one, is_negative, Bool, true,
  false, not, ◌&&◌, Option, some, List, [], ◌∷◌, Bytes, eq_bytes,
}
use mathlib.Core.Bool.{Bool-set}
use mathlib.Core.Logic.{∥∥₁_elim}
use mathlib.Core.List.{Perm, Permᴰ}
use mathlib.Core.List.Perm
use mathlib.Core.List.Permᴰ.{nil, cons, swap, trans}
use wow_so_distributed.Host.{Call, History, Reply, Env}
use wow_so_distributed.Exec.{returned}
use wow_so_distributed.Machine.{Process, call}
use wow_so_distributed.LocalReorder.{WriteOp, wow_kill_phrase}
use wow_so_distributed.LocalReorder.Permutes.{fisher_yates_shuffle-perm}
use wow_so_distributed.LocalReorder.Disjoint.{
  descriptor, covering, after_write, after_writes, after_writes-perm,
}
use wow_so_distributed.Ops.Prologue.{mark_dirty}
use wow_so_distributed.Ops.Io.{wow_write, open_or_fh, mark_or_close}
use wow_so_distributed.Ops.Close.{write_all, shuffle_queue}

-- A write that pwrite takes, and that does not end the process.
unfoldable pub is_fine : WriteOp → Bool
is_fine op =
    not (is_minus_one (descriptor op))
    && (not (eq_bytes op.buf wow_kill_phrase) && not (is_negative op.offset))

abbrev pub all_fine : List WriteOp → Bool
all_fine [] = true
all_fine (op ∷ ops) = is_fine op && all_fine ops

not_kill : (op : WriteOp) → is_fine op ≡ true → eq_bytes op.buf wow_kill_phrase ≡ false
unfolding is_fine
not_kill op fine = ground (arith, fine)

all_fine-Permᴰ : {xs ys : List WriteOp} → Permᴰ xs ys → all_fine xs ≡ all_fine ys
all_fine-Permᴰ nil = refl
all_fine-Permᴰ (cons {b = b} e d) = rw (e, all_fine-Permᴰ d) refl
all_fine-Permᴰ (swap e1 e2) = rw (e1, e2) (ground arith)
all_fine-Permᴰ (trans d1 d2) = all_fine-Permᴰ d1 ∙ all_fine-Permᴰ d2

all_fine-perm : {xs ys : List WriteOp} → Perm xs ys → all_fine xs ≡ all_fine ys
all_fine-perm p = ∥∥₁_elim p (Bool-set _ _) all_fine-Permᴰ

-- What the kernel is trusted to do to the bytes of the files, where `behind` says which file is
-- behind a descriptor: a write through one descriptor shows behind all of the same file.
pub record PutsBytes (behind : ℤ → ℤ) (byte : History → ℤ → ℕ → Option ℕ) : Type 0 where
  pub pwrite_puts :
      (op : WriteOp) (file : ℤ) (i : ℕ) (r : Reply) (h : History)
      → is_negative op.offset ≡ false
      → r.ret ≡ pos op.size
      → byte ((Call.pwrite (descriptor op) op.buf op.size op.offset, r) ∷ h) file i
        ≡ after_write behind op file i (byte h file i)

module _ (behind : ℤ → ℤ) (byte : History → ℤ → ℕ → Option ℕ) (env : Env)
    (kernel : PutsBytes behind byte)
    (written : (h : History) (fd : ℤ) (text : Bytes) (size offset : ℕ)
      → (env.answer h (Call.pwrite fd text size (pos offset))).ret ≡ pos size) where
  written_whole :
      (fd : ℤ) (text : Bytes) (size : ℕ) (offset : ℤ) (h : History)
      → is_negative offset ≡ false
      → (env.answer h (Call.pwrite fd text size offset)).ret ≡ pos size
  written_whole fd text size (pos offset) h natural = written h fd text size offset
  written_whole fd text size (negsuc n) h natural = cc

  pub wow_write-bytes :
      (op : WriteOp) (s : Process)
      → is_fine op ≡ true
      → let x = wow_write env op.path op.buf op.size op.offset (some op.fi) s in
        (n : ℤ) × (x.0 ≡ returned n)
        × ((file : ℤ) (i : ℕ)
            → byte x.1.history file i ≡ after_write behind op file i (byte s.history file i))
  unfolding wow_write open_or_fh mark_or_close mark_dirty call is_fine
  wow_write-bytes op s fine =
      let valid : is_minus_one (descriptor op) ≡ false = ground (arith, fine) in
      let natural : is_negative op.offset ≡ false = ground (arith, fine) in
      simp (valid) (
        _,
        refl,
        λ file i.
            kernel.pwrite_puts op file i _ s.history natural
              (written_whole (descriptor op) op.buf op.size op.offset s.history natural),
      )

  pub write_all-bytes :
      (ops : List WriteOp) (s : Process)
      → all_fine ops ≡ true
      → let x = write_all env ops s in
        (x.0 ≡ returned tt)
        × ((file : ℤ) (i : ℕ)
            → byte x.1.history file i ≡ after_writes behind ops file i (byte s.history file i))
  unfolding write_all
  write_all-bytes [] s fine = (refl, λ file i. refl)
  write_all-bytes (op ∷ ops) s fine =
      let first : is_fine op ≡ true = ground (arith, fine) in
      let others : all_fine ops ≡ true = ground (arith, fine) in
      let no_kill : eq_bytes op.buf wow_kill_phrase ≡ false = not_kill op first in
      let (n, done, put) = wow_write-bytes op s first in
      let s' = (wow_write env op.path op.buf op.size op.offset (some op.fi) s).1 in
      let (ended, puts) = write_all-bytes ops s' others in
      simp (no_kill, done)
        (ended, λ file i. puts file i ∙ ap (after_writes behind ops file i) (put file i))

  -- When flush writes a shuffled queue of writes, none of which ends the process or has a
  -- negative offset or the descriptor -1, and each byte of each file is for at most one of
  -- them, through whichever descriptors of the file, then it returns, as it does for the queue in its
  -- order, and both leave the same bytes in every file. pwrite is trusted to write as many bytes as it is asked for.
  pub write_all-shuffle_queue :
      (s : Process)
      → all_fine s.write_queue ≡ true
      → ((file : ℤ) (i : ℕ) → covering behind file i s.write_queue ≤ 1)
      → let t = shuffle_queue env s in
        let x = write_all env t.write_queue t in
        let y = write_all env s.write_queue s in
        (x.0 ≡ returned tt)
        × (y.0 ≡ returned tt)
        × ((file : ℤ) (i : ℕ) → byte x.1.history file i ≡ byte y.1.history file i)
  unfolding shuffle_queue
  write_all-shuffle_queue s fine apart =
      let p = fisher_yates_shuffle-perm (env.draw s.history) s.write_queue in
      let t = shuffle_queue env s in
      let (ended, puts) = write_all-bytes t.write_queue t (all_fine-perm p ∙ fine) in
      let (ended', puts') = write_all-bytes s.write_queue s fine in
      (
        ended,
        ended',
        λ file i.
            puts file i
            ∙ sym (
                after_writes-perm behind file i (Perm.symm p) (apart file i)
                  (byte s.history file i))
            ∙ sym (puts' file i),
      )
