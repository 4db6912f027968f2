-- ===== src/Workloads/Recovers.antt =====
-- main of workloads/durability_tests/checkpoint.cpp on a file system that does what POSIX says: it may
-- be stopped at any moment and started again.
use wow_so_distributed.Base.{
  ◌≤◌, ◌≡◌, refl, sym, ap, ◌∙◌, arith, ℤ, pos, is_minus_one, Bool, true, false, Option, none, some,
  ◌∷◌, ◌++◌, Bytes, length, Bool-cases, inl, inr, Option-cases, codes, if◌then◌else◌,
}
use wow_so_distributed.Base.Numbers.{stoi}
use wow_so_distributed.Host.{Call, History, Env}
use wow_so_distributed.Exec.{Exit, returned}
use wow_so_distributed.Server.{sys}
use wow_so_distributed.Server.Atomic.{last_open}
use wow_so_distributed.Workloads.Throughout.{
  Throughout, now, later, Throughout-join, Throughout-map, Throughout-last,
}
use wow_so_distributed.Workloads.Checkpoint.{
  wowdb_file, checkpoints_file, checkpoint_1_key, very_imp_data, checkpoint_one_present, recover,
  record_first, put, kill_target, main, behind_equals,
}
use wow_so_distributed.Workloads.Durable.{tells, Posix, Saved, IsDurable, put_checkpoint, put_data}
use wow_so_distributed.Workloads.Lines.{any_checkpoint_lem}
use wow_so_distributed.Workloads.Fib.{fib, fib_loop-fib}

abbrev is_there : Option Bytes → Bool
is_there none = false
is_there (some text) = true

module _ (contents : History → Bytes → Option Bytes) (env : Env) (fs : Posix contents)
    (opens : (h : History) (path : Bytes) (flags : ℤ)
      → is_minus_one (env.answer h (Call.open_file path flags none)).ret ≡ false)
    (writes : (h : History) (fd : ℤ) (text : Bytes)
      → (env.answer h (Call.write fd text)).ret ≡ pos (length text))
    (finds : (h : History) (path : Bytes)
      → (env.answer h (Call.fs_exists path)).ok ≡ is_there (contents h path))
    (reads : (h : History) (path text : Bytes)
      → contents h path ≡ some text
      → (env.answer h (Call.ifstream path)).bytes ≡ text)
    (gives : (h : History) (path text : Bytes) (fd : ℤ)
      → last_open h ≡ some (path, fd)
      → contents h path ≡ some text
      → length text ≤ 1024
      → (env.answer h (Call.pread fd 1024 (pos 0))).bytes ≡ text) where
  Same : History → History → Type 0
  Same h h' = (p : Bytes) → contents h' p ≡ contents h p

  checkpoint_one_present_lem :
      (h : History)
      → let x = checkpoint_one_present env h in
        (x.0 ≡ returned (tells (contents h checkpoints_file))) × Throughout (Same h) h x.1
  unfolding checkpoint_one_present sys Same
  checkpoint_one_present_lem h =
      let c = Call.fs_exists checkpoints_file in
      let h1 = (c, env.answer h c) ∷ h in
      let same1 : Same h h1 = λ p. fs.exists_keeps p checkpoints_file _ h in
      let start : Throughout (Same h) h h1 = later _ (now (λ p. refl)) same1 in
      elim (Option-cases (contents h checkpoints_file)) [
        | inl missing ↦
            let no : (env.answer h c).ok ≡ false = finds h checkpoints_file ∙ rw missing refl in
            simp (no) (rw missing refl, start)
        | inr (text, there) ↦
            let yes_there : (env.answer h c).ok ≡ true = finds h checkpoints_file ∙ rw there refl in
            let read = reads h1 checkpoints_file text (same1 checkpoints_file ∙ there) in
            simp (yes_there, read)
              (
                rw there (ap returned (any_checkpoint_lem text)),
                later _ start (λ p. fs.ifstream_keeps p checkpoints_file _ h1 ∙ same1 p),
              )
      ]

  recover_lem :
      (h : History)
      → Saved contents h
      → let x = recover env h in (x.0 ≡ returned (pos 42)) × Throughout (Saved contents) h x.1
  unfolding recover sys stoi behind_equals
  recover_lem h saved =
      let o = env.answer h (Call.open_file wowdb_file (pos 0) none) in
      let h1 = (Call.open_file wowdb_file (pos 0) none, o) ∷ h in
      let s1 = fs.open_keeps wowdb_file very_imp_data (pos 0) o h refl saved in
      let opened : last_open h1 ≡ some (wowdb_file, o.ret) = rw opens refl in
      let got = gives h1 wowdb_file very_imp_data o.ret opened s1 (omega arith) in
      simp (got) (
        refl,
        later _ (later _ (now saved) s1) (fs.pread_keeps wowdb_file o.ret 1024 (pos 0) _ h1 ∙ s1),
      )

  record_first_lem :
      (h : History)
      → tells (contents h checkpoints_file) ≡ false
      → let x = record_first env h in
        (x.0 ≡ returned (pos 42)) × Throughout (IsDurable contents) h x.1 × Saved contents x.1
  unfolding record_first
  record_first_lem h lacking =
      let (done, durable, saved) = put_data contents env fs opens writes h lacking in
      let h1 = (put env wowdb_file (pos 577) very_imp_data h).1 in
      let text = checkpoint_1_key ++ codes ": very important data has been written\n" in
      let (done', keeps) = put_checkpoint contents env fs opens writes (pos 1089) text h1 saved in
      (refl, Throughout-join durable (Throughout-map (λ h s told. s) keeps), Throughout-last keeps)

  -- Either branch of main gets the number, and leaves the data in its file.
  abbrev number : Bool → History → Exit ℤ × History
  number present = if present then recover env else record_first env

  number_lem :
      (h h1 : History)
      → IsDurable contents h
      → Same h h1
      → let x = number (tells (contents h checkpoints_file)) h1 in
        (x.0 ≡ returned (pos 42)) × Throughout (IsDurable contents) h1 x.1 × Saved contents x.1
  unfolding Same
  number_lem h h1 durable same = elim (Bool-cases (tells (contents h checkpoints_file))) [
    | inl told ↦
        let (n, keeps) = recover_lem h1 (same wowdb_file ∙ durable told) in
        rw told (n, Throughout-map (λ h s e. s) keeps, Throughout-last keeps)
    | inr untold ↦ rw untold (record_first_lem h1 (ap tells (same checkpoints_file) ∙ untold))
  ]

  Same-IsDurable : (h h' : History) → IsDurable contents h → Same h h' → IsDurable contents h'
  unfolding Same
  Same-IsDurable h h' durable same told =
      same wowdb_file ∙ durable (sym (ap tells (same checkpoints_file)) ∙ told)

  -- Started without an argument in a state where a file of checkpoints that tells of the first
  -- one implies that the data is in its file, main computes the Fibonacci number of 42, whichever
  -- branch it takes, that implication holds at every moment of the run, and the data is in its
  -- file at the end: main can be stopped at any moment and started again. The opens succeed, the
  -- writes are whole, and the file system is trusted to do what POSIX says.
  pub main_recovers :
      (h : History)
      → IsDurable contents h
      → let x = main env none h in
        (x.0 ≡ returned (pos (fib 42))) × Throughout (IsDurable contents) h x.1 × Saved contents x.1
  unfolding main kill_target
  main_recovers h durable =
      let (present, asked) = checkpoint_one_present_lem h in
      let h1 = (checkpoint_one_present env h).1 in
      let same = Throughout-last asked in
      let (n, safe, saved) = number_lem h h1 durable same in
      let h2 = (number (tells (contents h checkpoints_file)) h1).1 in
      let text = codes "checkpoint 2: very_imp_computation has been done\n" in
      let (done, keeps) = put_checkpoint contents env fs opens writes (pos 1025) text h2 saved in
      simp (present, n)
        (
          ap returned (fib_loop-fib 42 (omega arith) (omega arith)),
          Throughout-join (Throughout-map (λ h' s. Same-IsDurable h h' durable s) asked)
              (Throughout-join safe (Throughout-map (λ h s e. s) keeps)),
          Throughout-last keeps,
        )
