-- ===== src/Examples/Programs.antt =====
-- The theorems about shuffled writes, and about the programs of workloads/durability_tests, applied to
-- concrete runs.
use wow_so_distributed.Base.{
  ℕ, ◌+◌, ◌-◌, ◌<◌, ◌≡◌, refl, arith, ℤ, pos, eq_ℤ, ◌&&◌, Option, none, [], ◌∷◌, codes, length,
  get_elem?, leb, ltb, eq_bytes, if◌then◌else◌,
}
use wow_so_distributed.Base.Int.{pos_part}
use wow_so_distributed.Host.{Call, History}
use wow_so_distributed.Exec.{returned}
use wow_so_distributed.Machine.{Process}
use wow_so_distributed.LocalReorder.{c_string}
use wow_so_distributed.LocalReorder.Disjoint.{covers}
use wow_so_distributed.Ops.Close.{write_all, shuffle_queue}
use wow_so_distributed.Ops.Reorder.{PutsBytes, is_fine, write_all-shuffle_queue}
use wow_so_distributed.Workloads.Reorder.{values, record_all, joined}
use wow_so_distributed.Workloads.Recorded.{write_all-record_all}
use wow_so_distributed.Examples.{quiet, plain, a_file, fi}

-- Descriptor 6 is of the file of descriptor 5.
abbrev pub behind : ℤ → ℤ
behind fd = if eq_ℤ fd (pos 6) then pos 5 else fd

abbrev pub byte : History → ℤ → ℕ → Option ℕ
byte [] file i = none
byte ((Call.pwrite fd text size offset, r) ∷ h) file i =
    let before = byte h file i in
    if eq_ℤ (behind fd) file && (leb (pos_part offset) i && ltb i (pos_part offset + size))
    then get_elem? text (i - pos_part offset)
    else before
byte (_ ∷ h) file i = byte h file i

pub byte-PutsBytes : PutsBytes behind byte
unfolding covers
byte-PutsBytes = record { pwrite_puts = λ op file i r h natural full. refl }

abbrev recorded : Process
recorded = record plain { write_queue = record_all a_file fi 0 values [] }

abbrev shuffled : Process
shuffled = shuffle_queue quiet recorded

write_all-record_all_example :
    let x = write_all quiet shuffled.write_queue shuffled in
    (x.0 ≡ returned tt)
    × ((i : ℕ)
        → i < length (joined values)
        → byte x.1.history (pos 5) i ≡ get_elem? (joined values) i)
unfolding eq_bytes c_string
write_all-record_all_example =
    write_all-record_all behind byte quiet byte-PutsBytes (λ h fd text size offset. refl) a_file fi
      values recorded refl refl refl

-- Two writes to one file through two descriptors, one behind the other.
abbrev two_writes : Process
two_writes = record plain {
  write_queue =
      record { path = a_file; buf = codes "he"; size = 2; offset = pos 0; fi = fi }
      ∷ record {
        path = a_file;
        buf = codes "llo";
        size = 3;
        offset = pos 2;
        fi = record fi { fh = 6 };
      }
      ∷ [];
}

write_all-shuffle_queue_example :
    let t = shuffle_queue quiet two_writes in
    let x = write_all quiet t.write_queue t in
    let y = write_all quiet two_writes.write_queue two_writes in
    (x.0 ≡ returned tt)
    × (y.0 ≡ returned tt)
    × ((file : ℤ) (i : ℕ) → byte x.1.history file i ≡ byte y.1.history file i)
unfolding covers is_fine eq_bytes
write_all-shuffle_queue_example =
    write_all-shuffle_queue behind byte quiet byte-PutsBytes (λ h fd text size offset. refl)
      two_writes refl (λ fd i. ground arith)
