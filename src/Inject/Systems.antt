-- ===== src/Inject/Systems.antt =====
-- The tables of wowFS/unreliablefs/unreliablefs_errno_*.h together: the numbers that an
-- operation draws.
use wow_so_distributed.Base.{
  ℕ, ◌≤◌, ◌≡◌, Bool, true, false, ◌&&◌, Option, none, some, zero, suc, List, [], ◌∷◌, get_elem?,
  leb, arith,
}
use wow_so_distributed.Inject.ErrnoTable.{errno_table}
use wow_so_distributed.Inject.FuseOps.{FuseOp}
use wow_so_distributed.Inject.Freebsd
use wow_so_distributed.Inject.Openbsd
use wow_so_distributed.Inject.Macosx

-- The systems of the build, FreeBSD with its __FreeBSD__.
pub data System : Type 0 where
  linux openbsd macosx : System
  freebsd : ℕ → System

unfoldable pub table_on : System → FuseOp → Option (List ℕ)
unfolding errno_table
table_on linux op = some (errno_table op)
table_on openbsd op = Openbsd.table op
table_on macosx op = Macosx.table op
table_on (freebsd version) op = Freebsd.table (leb 12 version) op

-- A number from 1 to 127.
abbrev is_fine : ℕ → Bool
is_fine e = leb 1 e && leb e 127

abbrev all : (ℕ → Bool) → List ℕ → Bool
all p [] = true
all p (x ∷ xs) = p x && all p xs

all-get_elem? :
    (p : ℕ → Bool) (xs : List ℕ) (i e : ℕ) → all p xs ≡ true → get_elem? xs i ≡ some e → p e ≡ true
all-get_elem? p [] i e h at = cc
all-get_elem? p (x ∷ xs) zero e h at = ground (arith, h, at)
all-get_elem? p (x ∷ xs) (suc i) e h at = ground (arith, h, at, all-get_elem? p xs i e)

abbrev all_fine : FuseOp → Option (List ℕ) → Bool
all_fine op none = true
all_fine op (some t) = all is_fine t

freebsd_fine : (since_12 : Bool) (op : FuseOp) → all_fine op (Freebsd.table since_12 op) ≡ true
freebsd_fine true op = ground arith
freebsd_fine false op = ground arith

openbsd_fine : (op : FuseOp) → all_fine op (Openbsd.table op) ≡ true
openbsd_fine op = ground arith

macosx_fine : (op : FuseOp) → all_fine op (Macosx.table op) ≡ true
macosx_fine op = ground arith

linux_fine : (op : FuseOp) → all_fine op (some (errno_table op)) ≡ true
unfolding errno_table
linux_fine op = ground arith

table_on_fine : (sys : System) (op : FuseOp) → all_fine op (table_on sys op) ≡ true
unfolding table_on
table_on_fine linux op = linux_fine op
table_on_fine openbsd op = openbsd_fine op
table_on_fine macosx op = macosx_fine op
table_on_fine (freebsd version) op = freebsd_fine (leb 12 version) op

-- On every system, each number of the table that an operation draws from is from 1 to 127.
drawn_in_range :
    (sys : System) (op : FuseOp) (t : List ℕ) (i e : ℕ)
    → table_on sys op ≡ some t
    → get_elem? t i ≡ some e
    → (1 ≤ e) × (e ≤ 127)
drawn_in_range sys op t i e on at =
    let fine : all is_fine t ≡ true = ground (arith, on, table_on_fine sys op) in
    ground (arith, all-get_elem? is_fine t i e fine at)
