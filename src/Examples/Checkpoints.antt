-- ===== src/Examples/Checkpoints.antt =====
-- The theorems about workloads/durability_tests/checkpoint.cpp applied to a file system of a few lines.
use wow_so_distributed.Base.{
  ◌≡◌, ◌≢◌, refl, arith, ℤ, pos, eq_ℤ, eq_ℤ_iff, is_minus_one, Bool, true, false, ◌&&◌, not, Option,
  none, some, [], ◌∷◌, ◌++◌, Bytes, length, eq_bytes, eq_bytes_iff, eq_bytes_refl, if◌then◌else◌,
  Bool-cases, inl, inr, ap,
}
use mathlib.Core.Option
use wow_so_distributed.Host.{Call, Reply, History, Env}
use wow_so_distributed.Exec.{returned}
use wow_so_distributed.Server.Atomic.{last_open}
use wow_so_distributed.Ops.Fetches.{truncates}
use wow_so_distributed.Workloads.Throughout.{Throughout, Throughout-last}
use wow_so_distributed.Workloads.Fib.{fib, fib_loop, fib_loop-fib}
use wow_so_distributed.Workloads.Checkpoint.{main}
use wow_so_distributed.Workloads.Durable.{Posix, Saved, IsDurable}
use wow_so_distributed.Workloads.Recovers.{main_recovers}
use wow_so_distributed.Examples.{reply, usual, quiet}

fib_loop-fib_example : fib_loop (pos 46) ≡ pos (fib 46)
fib_loop-fib_example = fib_loop-fib 46 (omega arith) (omega arith)

-- Every open of checkpoint.cpp is for an empty file or with O_APPEND: its writes go to the end.
abbrev appended : Bytes → Reply → Bytes → Option (Bytes × ℤ) → Option Bytes → Option Bytes
appended text r p none file = file
appended text r p (some (path, fd)) file =
    if eq_bytes p path && eq_ℤ r.ret (pos (length text))
    then Option.map (λ f. f ++ text) file
    else file

abbrev opened : ℤ → Option Bytes → Option Bytes
opened flags file = if truncates flags then some [] else some (Option.get_or file [])

abbrev contents : History → Bytes → Option Bytes
contents [] p = none
contents ((Call.open_file path flags mode, r) ∷ h) p =
    let before = contents h p in
    if eq_bytes p path && not (is_minus_one r.ret) then opened flags before else before
contents ((Call.write fd text, r) ∷ h) p = appended text r p (last_open h) (contents h p)
contents (_ ∷ h) p = contents h p

differ : (p path : Bytes) → p ≢ path → eq_bytes p path ≡ false
differ p path apart = elim (Bool-cases (eq_bytes p path)) [
  | inl same ↦ absurd (apart ((eq_bytes_iff p path).0 same))
  | inr other ↦ other
]

opened_empty :
    (path : Bytes) (flags : ℤ) (o : Reply) (h : History)
    → is_minus_one o.ret ≡ false
    → contents ((Call.open_file path flags none, o) ∷ h) path ≡ some []
    → opened flags (contents h path) ≡ some []
opened_empty path flags o h well at =
    let e : contents ((Call.open_file path flags none, o) ∷ h) path
        ≡ opened flags (contents h path) =
      rw (well, eq_bytes_refl path) refl in
    cc

contents-Posix : Posix contents
contents-Posix = record {
  open_empties = λ path r h well. rw (well, eq_bytes_refl path) refl;
  open_keeps = λ path file flags r h keeps at. ground (arith, keeps, at);
  open_keeps_others = λ p path flags r h apart. rw (differ p path apart) refl;
  write_fills = λ path text flags o r h well at full.
      rw (well, full, eq_bytes_refl path, (eq_ℤ_iff (pos (length text)) (pos (length text))).1 refl)
        (ap (Option.map (λ f. f ++ text)) (opened_empty path flags o h well at));
  write_keeps = λ p path text fd r h last apart. rw (last, differ p path apart) refl;
  close_keeps = λ p fd r h. refl;
  exists_keeps = λ p path r h. refl;
  ifstream_keeps = λ p path r h. refl;
  pread_keeps = λ p fd size offset r h. refl;
}

abbrev text_of : Option Bytes → Bytes
text_of none = []
text_of (some text) = text

abbrev is_there : Option Bytes → Bool
is_there none = false
is_there (some text) = true

abbrev read_last : Option (Bytes × ℤ) → History → Bytes
read_last none h = []
read_last (some (path, fd)) h = text_of (contents h path)

abbrev answer : History → Call → Reply
answer h (Call.fs_exists path) = reply (pos 0) 0 (is_there (contents h path))
answer h (Call.ifstream path) = record (reply (pos 0) 0 true) { bytes = text_of (contents h path) }
answer h (Call.write fd text) = reply (pos (length text)) 0 true
answer h (Call.pread fd size offset) = record (reply (pos 0) 0 true) {
  bytes = read_last (last_open h) h;
}
answer h c = usual c

abbrev machine : Env
machine = record quiet { answer = answer }

-- The state in which a first run has left the machine: its checkpoint tells of the data.
abbrev before : History
before = (main machine none []).1

before-IsDurable : IsDurable contents before
before-IsDurable told =
    Throughout-last
      ((main_recovers contents machine contents-Posix (λ h path flags. refl) (λ h fd text. refl)
        (λ h path. elim (contents h path) [ none ↦ refl | some text ↦ refl ])
        (λ h path text at. ap text_of at) (λ h path text fd last at small. rw last (ap text_of at))
        [] (λ told. cc)).1)
      told

main_recovers_example :
    let x = main machine none before in
    (x.0 ≡ returned (pos (fib 42)))
    × Throughout (IsDurable contents) before x.1
    × Saved contents x.1
main_recovers_example =
    main_recovers contents machine contents-Posix (λ h path flags. refl) (λ h fd text. refl)
      (λ h path. elim (contents h path) [ none ↦ refl | some text ↦ refl ])
      (λ h path text at. ap text_of at) (λ h path text fd last at small. rw last (ap text_of at))
      before before-IsDurable
