-- ===== src/Workloads/Recorded.antt =====
-- The writes of workloads/durability_tests/reorder.cc, recorded in the queue of
-- wowFS/unreliablefs/WowLocalWriteReorder.H, shuffled and written by flush: what the file holds then.
use wow_so_distributed.Base.{
  ℕ, zero, suc, int32, ◌+◌, ◌-◌, ◌≤◌, ◌<◌, ◌≡◌, refl, ◌∙◌, arith, ℤ, pos, Bool, true, false, ◌&&◌,
  Option, List, [], ◌∷◌, ◌++◌, Bytes, eq_bytes, eq_bytes_iff, eq_ℤ_iff, length, length-append,
  append-nil, append_assoc, is_minus_one, sym, get_elem?, if◌then◌else◌, ltb, leb, eq_ℤ,
}
use wow_so_distributed.Host.{Call, History, Env}
use wow_so_distributed.Exec.{returned}
use wow_so_distributed.LocalReorder.{FuseFileInfo, WriteOp, wow_kill_phrase, c_string, record_write}
use wow_so_distributed.LocalReorder.Disjoint.{covers, covering, after_writes}
use wow_so_distributed.Ops.Close.{write_all, shuffle_queue}
use wow_so_distributed.Ops.Reorder.{
  is_fine, all_fine, PutsBytes, write_all-bytes, write_all-shuffle_queue,
}
use wow_so_distributed.Machine.{Process}
use wow_so_distributed.Workloads.Reorder.{record_all, all_text, joined}

count_one :
    (same : Bool) (offset i size rest : ℕ)
    → rest ≤ 1
    → (i < offset + size → rest ≡ 0)
    → let n = (if same && (leb offset i && ltb i (offset + size)) then 1 else 0) + rest in
      (n ≤ 1) × (i < offset → n ≡ 0)
count_one same offset i size rest one before = ground (arith, one, before)

get_elem?-append :
    {A : Type 0} (xs ys : List A) (i : ℕ)
    → get_elem? (xs ++ ys) i
      ≡ (if ltb i (length xs) then get_elem? xs i else get_elem? ys (i - length xs))
get_elem?-append [] ys i = ground arith
get_elem?-append (x ∷ xs) ys zero = ground arith
get_elem?-append (x ∷ xs) ys (suc i) = ground (arith, get_elem?-append xs ys i)

get_elem?-joined :
    (xs ys : Bytes) (offset i : ℕ) (byte : Option ℕ)
    → (if leb (offset + length xs) i && ltb i (offset + length xs + length ys)
        then get_elem? ys (i - (offset + length xs))
        else if leb offset i && ltb i (offset + length xs)
        then get_elem? xs (i - offset)
        else byte)
      ≡ (if leb offset i && ltb i (offset + length (xs ++ ys))
          then get_elem? (xs ++ ys) (i - offset)
          else byte)
get_elem?-joined xs ys offset i byte =
    let e : i - (offset + length xs) ≡ i - offset - length xs = omega arith in
    rw (length-append xs ys, get_elem?-append xs ys (i - offset), e) (ground arith)

module _ (path : Bytes) (fi : FuseFileInfo) where
  abbrev pub ops_of : ℕ → List Bytes → List WriteOp
  ops_of offset [] = []
  ops_of offset (m ∷ messages) =
      record { path = path; buf = m; size = length m; offset = pos offset; fi = fi }
      ∷ ops_of (offset + length m) messages

  covering-ops_of :
      (behind : ℤ → ℤ) (file : ℤ) (i offset : ℕ) (messages : List Bytes)
      → (covering behind file i (ops_of offset messages) ≤ 1)
        × (i < offset → covering behind file i (ops_of offset messages) ≡ 0)
  unfolding covers
  covering-ops_of behind file i offset [] = (omega arith, λ h. refl)
  covering-ops_of behind file i offset (m ∷ messages) =
      let (one, before) = covering-ops_of behind file i (offset + length m) messages in
      count_one (eq_ℤ (behind (int32 (pos fi.fh))) file) offset i (length m) _ one before

  -- Written in order, the messages become the file.
  after_writes-ops_of :
      (behind : ℤ → ℤ) (file : ℤ) (i offset : ℕ) (messages : List Bytes) (byte : Option ℕ)
      → eq_ℤ (behind (int32 (pos fi.fh))) file ≡ true
      → after_writes behind (ops_of offset messages) file i byte ≡ (
          if leb offset i && ltb i (offset + length (joined messages))
          then get_elem? (joined messages) (i - offset)
          else byte)
  unfolding covers
  after_writes-ops_of behind file i offset [] byte same = ground arith
  after_writes-ops_of behind file i offset (m ∷ messages) byte same =
      after_writes-ops_of behind file i (offset + length m) messages _ same
      ∙ rw same (get_elem?-joined m (joined messages) offset i byte)

  record_all-ops_of :
      (offset : ℕ) (messages : List Bytes) (queue : List WriteOp)
      → all_text messages ≡ true
      → record_all path fi offset messages queue ≡ queue ++ ops_of offset messages
  unfolding record_all record_write
  record_all-ops_of offset [] queue h = sym (append-nil queue)
  record_all-ops_of offset (m ∷ messages) queue h =
      let whole : c_string m ≡ m = (eq_bytes_iff (c_string m) m).0 (ground (arith, h)) in
      rw whole (
        record_all-ops_of (offset + length m) messages _ (ground (arith, h))
        ∙ append_assoc queue _ _)

  all_fine-ops_of :
      (offset : ℕ) (messages : List Bytes)
      → is_minus_one (int32 (pos fi.fh)) ≡ false
      → all_text messages ≡ true
      → all_fine (ops_of offset messages) ≡ true
  unfolding is_fine
  all_fine-ops_of offset [] valid h = refl
  all_fine-ops_of offset (m ∷ messages) valid h =
      let rest = all_fine-ops_of (offset + length m) messages valid (ground (arith, h)) in
      let going : eq_bytes m wow_kill_phrase ≡ false = ground (arith, h) in rw (valid, going) rest

module _ (behind : ℤ → ℤ) (byte : History → ℤ → ℕ → Option ℕ) (env : Env)
    (kernel : PutsBytes behind byte)
    (written : (h : History) (fd : ℤ) (text : Bytes) (size offset : ℕ)
      → (env.answer h (Call.pwrite fd text size (pos offset))).ret ≡ pos size) where
  -- When the queue is what the writes of messages, one behind the other from the start of a file,
  -- make of an empty queue, and flush writes it shuffled, then flush returns, and the bytes of
  -- the file are exactly those of the messages in their order. The messages have no NUL and are
  -- not the kill phrase, the descriptor is not -1, and pwrite is trusted to write as many bytes
  -- as it is asked for.
  pub write_all-record_all :
      (path : Bytes) (fi : FuseFileInfo) (messages : List Bytes) (s : Process)
      → is_minus_one (int32 (pos fi.fh)) ≡ false
      → all_text messages ≡ true
      → s.write_queue ≡ record_all path fi 0 messages []
      → let t = shuffle_queue env s in
        let x = write_all env t.write_queue t in
        (x.0 ≡ returned tt)
        × ((i : ℕ)
            → i < length (joined messages)
            → byte x.1.history (behind (int32 (pos fi.fh))) i ≡ get_elem? (joined messages) i)
  write_all-record_all path fi messages s valid texts queued =
      let file = behind (int32 (pos fi.fh)) in
      let q : s.write_queue ≡ ops_of path fi 0 messages =
        queued ∙ record_all-ops_of path fi 0 messages [] texts in
      let fine : all_fine s.write_queue ≡ true =
        rw q (all_fine-ops_of path fi 0 messages valid texts) in
      let (ended, ended', same) =
        write_all-shuffle_queue behind byte env kernel written s fine
          (λ f i. rw q (covering-ops_of path fi behind f i 0 messages).0) in
      let at_start : (i : ℕ)
          → i < length (joined messages)
          → (b : Option ℕ)
          → (if leb 0 i && ltb i (0 + length (joined messages))
              then get_elem? (joined messages) (i - 0)
              else b)
            ≡ get_elem? (joined messages) i =
        λ i inside b. let e : i - 0 ≡ i = omega arith in rw e (ground (arith, inside)) in
      (
        ended,
        λ i inside.
            same file i
            ∙ (write_all-bytes behind byte env kernel written s.write_queue s fine).1 file i
            ∙ rw q (
                after_writes-ops_of path fi behind file i 0 messages (byte s.history file i)
                  ((eq_ℤ_iff file file).1 refl)
                ∙ at_start i inside _),
      )
