-- ===== src/Inject/Draws.antt =====
-- wowFS/unreliablefs/unreliablefs_errinj.c: when nothing is injected, and which error is drawn.
use wow_so_distributed.Base.{
  ℕ, ◌+◌, ◌-◌, ◌%◌, ◌≤◌, ◌<◌, ◌≡◌, refl, pos, false, none, some, List, [], ◌∷◌, Bytes, eq_bytes,
  length, get_elem?, arith, ◌∙◌, zero, suc,
}
use wow_so_distributed.Base.Int.{pos_part}
use wow_so_distributed.Host.{Call, Reply, Env}
use wow_so_distributed.Exec.{returned}
use wow_so_distributed.Machine.{Process, call}
use wow_so_distributed.Inject.{rand_range, random_element, element_or_stray, error_inject}
use wow_so_distributed.Inject.FuseOps.{FuseOp}

module _ {ℓ} {A : Type ℓ} where
  get_elem?-end : (xs : List A) → get_elem? xs (length xs) ≡ none
  get_elem?-end [] = refl
  get_elem?-end (x ∷ xs) = get_elem?-end xs

  get_elem?-inside : (xs : List A) (i : ℕ) → i < length xs → (x : A) × (get_elem? xs i ≡ some x)
  get_elem?-inside [] i h = ground (arith, h)
  get_elem?-inside (x ∷ xs) zero h = (x, refl)
  get_elem?-inside (x ∷ xs) (suc i) h = get_elem?-inside xs i (omega (arith, h))

bounded : (a n : ℕ) → a % (n + 1) ≤ n
bounded a n = omega arith

module _ (env : Env) where
  -- A process without configured injections, on a path that is not the configuration file's, does
  -- nothing at all in error_inject, and the operation goes on.
  pub error_inject_off :
      (path : Bytes) (op : FuseOp) (s : Process)
      → eq_bytes path s.conf.config_path ≡ false
      → s.conf.errors ≡ none
      → error_inject env path op s ≡ (returned (pos 0), s)
  unfolding error_inject
  error_inject_off path op s other off = rw (other, off)

  module _ (arr : List ℕ) (s : Process) where
    abbrev pub rand_reply : Reply
    rand_reply = env.answer s.history Call.rand

    abbrev pub after_rand : Process
    after_rand = record s { history = (Call.rand, rand_reply) ∷ s.history }

    -- The index that is drawn.
    abbrev pub drawn : ℕ
    drawn = pos_part rand_reply.ret % (length arr + 1)

    abbrev pub stray : Reply
    stray = env.answer after_rand.history Call.stray_read

    at_drawn : random_element env arr s ≡ element_or_stray env (get_elem? arr drawn) after_rand
    unfolding random_element rand_range call
    at_drawn =
        let e : length arr - 0 ≡ length arr = omega arith in
        let f : pos_part rand_reply.ret % (length arr + 1) + 0 ≡ drawn = omega arith in rw (e, f)

    drawn_bounded : drawn ≤ length arr
    drawn_bounded = bounded (pos_part rand_reply.ret) (length arr)

    -- Where the index that RANDOM_ELEMENT draws is below the number of elements, the result is the
    -- element of the array at the index, and nothing but rand is called.
    pub random_element_inside :
        drawn < length arr
        → (e : ℕ) × (get_elem? arr drawn ≡ some e)
          × (random_element env arr s ≡ (returned (pos e), after_rand))
    unfolding element_or_stray
    random_element_inside h =
        let (x, found) = get_elem?-inside arr drawn h in (x, found, at_drawn ∙ rw found)

    -- Where the index that RANDOM_ELEMENT draws is not below the number of elements, it is that
    -- number, and the word behind the array is read and is the result.
    pub random_element_outside :
        length arr ≤ drawn
        → (drawn ≡ length arr)
          × (random_element env arr s ≡ (
            returned stray.ret,
            record s { history = (Call.stray_read, stray) ∷ after_rand.history },
          ))
    unfolding element_or_stray call
    random_element_outside h =
        let e : drawn ≡ length arr = omega (arith, h, drawn_bounded) in
        (e, at_drawn ∙ rw (e, get_elem?-end arr))
