-- ===== src/Workloads/Lines.antt =====
-- The search of workloads/durability_tests/checkpoint.cpp for a checkpoint, line by line, against a
-- search in the whole text.
use wow_so_distributed.Base.{
  ℕ, ◌==◌, Bool, true, ◌&&◌, ◌||◌, not, [], ◌∷◌, ◌++◌, Bytes, codes, contains, starts_with, exists,
  is_empty, ◌≡◌, refl, arith, if◌then◌else◌, append_assoc, ap, ◌∙◌, append-nil, Bool-cases, inl,
  inr,
}
use wow_so_distributed.Workloads.Checkpoint.{lines_from, any_checkpoint, checkpoint_1_key}

-- There is no end of line in the text.
abbrev one_line : Bytes → Bool
one_line [] = true
one_line (c ∷ text) = not (c == 10) && one_line text

starts_with-line :
    (key xs ys : Bytes) → one_line key ≡ true → starts_with key (xs ++ 10 ∷ ys) ≡ starts_with key xs
unfolding starts_with
starts_with-line [] xs ys h = refl
starts_with-line (k ∷ key) [] ys h = ground (arith, h)
starts_with-line (k ∷ key) (x ∷ xs) ys h = ground (arith, h, starts_with-line key xs ys)

-- A key that is in the text is in front of an end of line, or behind it.
contains-line :
    (k : ℕ) (key xs ys : Bytes)
    → one_line (k ∷ key) ≡ true
    → contains (k ∷ key) (xs ++ 10 ∷ ys) ≡ (contains (k ∷ key) xs || contains (k ∷ key) ys)
unfolding contains starts_with
contains-line k key [] ys h = ground (arith, h)
contains-line k key (x ∷ xs) ys h =
    let start = starts_with-line (k ∷ key) (x ∷ xs) ys h in
    ground (arith, h, start, contains-line k key xs ys h)

or_if : (a b : Bool) → (if a then true else b) ≡ (a || b)
or_if a b = ground arith

exists-lines_from :
    (k : ℕ) (key seen text : Bytes)
    → one_line (k ∷ key) ≡ true
    → exists (contains (k ∷ key)) (lines_from seen text) ≡ contains (k ∷ key) (seen ++ text)
unfolding lines_from contains starts_with is_empty
exists-lines_from k key [] [] h = refl
exists-lines_from k key (c ∷ seen) [] h = rw append-nil (ground arith)
exists-lines_from k key seen (c ∷ text) h = elim (Bool-cases (c == 10)) [
  | inl end ↦
      let e : c ≡ 10 = ground (arith, end) in
      rw (e, contains-line k key seen text h)
        (or_if (contains (k ∷ key) seen) _
          ∙ ap (λ b. contains (k ∷ key) seen || b) (exists-lines_from k key [] text h))
  | inr on ↦ rw on (
      exists-lines_from k key (seen ++ c ∷ []) text h
      ∙ ap (contains (k ∷ key)) (append_assoc seen (c ∷ []) text))
]

-- The loop over the lines finds the key exactly when it is in the text.
pub any_checkpoint_lem : (text : Bytes) → any_checkpoint text ≡ contains checkpoint_1_key text
unfolding any_checkpoint
any_checkpoint_lem text = exists-lines_from b'c' (codes "heckpoint_1") [] text refl
