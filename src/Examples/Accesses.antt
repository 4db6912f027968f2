-- ===== src/Examples/Accesses.antt =====
-- The theorem about the handlers read and write applied to two overlapping writes
-- through two descriptors of one file.
use wow_so_distributed.Base.{
  ℕ, zero, suc, ◌+◌, ◌<◌, ◌≡◌, refl, ap, ◌∙◌, sym, arith, ℤ, pos, Option, none, some, List, [], ◌∷◌,
  Bytes, codes, length, get_elem?, eq_bytes, true,
}
use wow_so_distributed.Base.Int.{pos_part}
use wow_so_distributed.Host.{Call, Reply, History, Env}
use wow_so_distributed.Exec.{returned}
use wow_so_distributed.LocalReorder.Disjoint.{covers}
use wow_so_distributed.Ops.Io.{unreliable_read}
use wow_so_distributed.Ops.Reorder.{is_fine}
use wow_so_distributed.Ops.Bytes.{
  GivesBytes, Access, write, read, serve_all, unreliable_read-serve_all,
}
use wow_so_distributed.Examples.{reply, usual, quiet, plain, a_file, fi}
use wow_so_distributed.Examples.Programs.{behind, byte, byte-PutsBytes}

abbrev cons_known : Option ℕ → Bytes → Bytes
cons_known none bytes = []
cons_known (some b) bytes = b ∷ bytes

-- The known bytes from `offset` on, at most `size` of them.
abbrev known : History → ℤ → ℕ → ℕ → Bytes
known h file offset zero = []
known h file offset (suc size) = cons_known (byte h file offset) (known h file (offset + 1) size)

known_lem :
    (h : History) (file : ℤ) (offset : ℕ) (text : Bytes)
    → ((k : ℕ) → k < length text → byte h file (offset + k) ≡ get_elem? text k)
    → known h file offset (length text) ≡ text
known_lem h file offset [] f = refl
known_lem h file offset (b ∷ text) f =
    let start : offset + 0 ≡ offset = omega arith in
    let first : byte h file offset ≡ some b = ap (byte h file) (sym start) ∙ f 0 (omega arith) in
    let rest = known_lem h file (offset + 1) text (λ k inside.
      let e : offset + 1 + k ≡ offset + suc k = omega arith in
      ap (byte h file) e ∙ f (suc k) (omega (arith, inside))) in
    rw (first, rest) refl

abbrev answer : History → Call → Reply
answer h (Call.pread fd size offset) =
    let bytes = known h (behind fd) (pos_part offset) size in
    record (reply (pos (length bytes)) 0 true) { bytes = bytes }
answer h c = usual c

abbrev disk : Env
disk = record quiet { answer = answer }

disk-GivesBytes : GivesBytes behind byte disk
disk-GivesBytes = record {
  pread_keeps = λ file fd size i offset r h. refl;
  pread_counts =
      λ fd offset text h f. ap (λ t. pos (length t)) (known_lem h (behind fd) offset text f);
  pread_gives = λ fd offset text h f. known_lem h (behind fd) offset text f;
}

abbrev accesses : List Access
accesses =
    write (record { path = a_file; buf = codes "hello"; size = 5; offset = pos 0; fi = fi })
    ∷ read a_file 3 (pos 0) fi
    ∷ write (record {
      path = a_file;
      buf = codes "LL";
      size = 2;
      offset = pos 2;
      fi = record fi { fh = 6 };
    })
    ∷ []

unreliable_read-serve_all_example :
    (unreliable_read disk a_file 5 (pos 0) (some fi) (serve_all disk accesses plain)).0
    ≡ returned (pos 5, codes "heLLo")
unfolding covers is_fine eq_bytes
unreliable_read-serve_all_example =
    unreliable_read-serve_all behind byte disk byte-PutsBytes disk-GivesBytes
      (λ h fd text size offset. refl) accesses a_file (codes "heLLo") 0 fi plain refl refl refl
      (omega arith) (λ k inside. ground (arith, inside))
