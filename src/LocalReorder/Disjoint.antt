-- ===== src/LocalReorder/Disjoint.antt =====
-- Writes of the queue of wowFS/unreliablefs/WowLocalWriteReorder.H that do not overlap: their order
-- does not matter.
use wow_so_distributed.Base.{
  ℕ, ◌+◌, ◌-◌, ◌≤◌, ◌≡◌, ◌∙◌, ap, refl, arith, ℤ, pos, eq_ℤ, Bool, ◌&&◌, Option, List, [], ◌∷◌,
  get_elem?, ltb, leb, int32, if◌then◌else◌,
}
use wow_so_distributed.Base.Int.{pos_part}
use native.Mathlib.Nat.{ℕ_set}
use mathlib.Core.Option
use mathlib.Core.Logic.{∥∥₁_elim}
use mathlib.Core.List.{Perm, Permᴰ}
use mathlib.Core.List.Permᴰ.{nil, cons, swap, trans}
use wow_so_distributed.LocalReorder.{WriteOp}

-- The descriptor of a recorded write.
abbrev pub descriptor : WriteOp → ℤ
descriptor op = int32 (pos op.fi.fh)

-- Whether byte `i` of `file` is one of those that the write is for, where `behind` says which file is
-- behind a descriptor: several descriptors may be of one file.
unfoldable pub covers : (ℤ → ℤ) → WriteOp → ℤ → ℕ → Bool
covers behind op file i =
    eq_ℤ (behind (descriptor op)) file
    && (leb (pos_part op.offset) i && ltb i (pos_part op.offset + op.size))

-- How many of the writes are for the byte.
abbrev pub covering : (ℤ → ℤ) → ℤ → ℕ → List WriteOp → ℕ
covering behind file i [] = 0
covering behind file i (op ∷ ops) =
    (if covers behind op file i then 1 else 0) + covering behind file i ops

-- The byte after a write, and after several, where it was `byte`. `none` stands for what is unknown,
-- as the bytes are that pwrite takes from behind the buffer.
abbrev pub after_write : (ℤ → ℤ) → WriteOp → ℤ → ℕ → Option ℕ → Option ℕ
after_write behind op file i byte =
    if covers behind op file i then get_elem? op.buf (i - pos_part op.offset) else byte

abbrev pub after_writes : (ℤ → ℤ) → List WriteOp → ℤ → ℕ → Option ℕ → Option ℕ
after_writes behind [] file i byte = byte
after_writes behind (op ∷ ops) file i byte =
    after_writes behind ops file i (after_write behind op file i byte)

module _ (behind : ℤ → ℤ) (file : ℤ) (i : ℕ) where
  covering-Permᴰ :
      {xs ys : List WriteOp} → Permᴰ xs ys → covering behind file i xs ≡ covering behind file i ys
  covering-Permᴰ nil = refl
  covering-Permᴰ (cons {b = b} e d) = rw (e, covering-Permᴰ d) refl
  covering-Permᴰ (swap e1 e2) = rw (e1, e2) (omega arith)
  covering-Permᴰ (trans d1 d2) = covering-Permᴰ d1 ∙ covering-Permᴰ d2

  -- Two writes for different bytes commute.
  after_write_swap :
      (x y : WriteOp) (ops : List WriteOp) (byte : Option ℕ)
      → covering behind file i (x ∷ y ∷ ops) ≤ 1
      → after_write behind x file i (after_write behind y file i byte)
        ≡ after_write behind y file i (after_write behind x file i byte)
  after_write_swap x y ops byte h = ground (arith, h)

  after_writes-Permᴰ :
      {xs ys : List WriteOp}
      → Permᴰ xs ys
      → covering behind file i xs ≤ 1
      → (byte : Option ℕ) → after_writes behind xs file i byte ≡ after_writes behind ys file i byte
  after_writes-Permᴰ nil h byte = refl
  after_writes-Permᴰ (cons {b = b} e d) h byte =
      rw e (after_writes-Permᴰ d (omega (arith, h)) (after_write behind b file i byte))
  after_writes-Permᴰ (swap {a = a} {b = b} {l = l} e1 e2) h byte =
      rw (← e1, ← e2)
        (ap (after_writes behind l file i) (after_write_swap b a l byte (omega (arith, h))))
  after_writes-Permᴰ (trans d1 d2) h byte =
      after_writes-Permᴰ d1 h byte ∙ after_writes-Permᴰ d2 (rw (← covering-Permᴰ d1) h) byte

  -- Where at most one of the writes is for the byte, the writes in another order leave the same there.
  pub after_writes-perm :
      {xs ys : List WriteOp}
      → Perm xs ys
      → covering behind file i xs ≤ 1
      → (byte : Option ℕ) → after_writes behind xs file i byte ≡ after_writes behind ys file i byte
  after_writes-perm {xs} {ys} p h byte =
      ∥∥₁_elim p (Option.is_set ℕ_set _ _) (λ d. after_writes-Permᴰ d h byte)
