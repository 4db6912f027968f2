-- ===== src/Server/Startup/Exact.antt =====
-- What CleanTmpFiles of wowRPC/server.cpp removes, in terms of the paths below the directory.
use wow_so_distributed.Base.{
  ℕ, zero, suc, ◌+◌, ◌-◌, ◌≤◌, ◌≡◌, refl, ap, sym, arith, Bool, true, false, ◌==◌, ◌&&◌, ◌||◌, not,
  leb, List, [], ◌∷◌, ◌++◌, Bytes, codes, eq_bytes, eq_bytes_iff, eq_bytes_refl, exists, length,
  length-append, drop, keep, if◌then◌else◌, Bool-cases, inl, inr,
}
use wow_so_distributed.Host.{WriteRequest}
use wow_so_distributed.Server.{WowFsServiceImpl}
use wow_so_distributed.Server.Uploads.{no_upload, with_paths}
use wow_so_distributed.Server.Startup.{
  Listing, end, directory, other, join, ends_with, is_dots, clean_entries, clean_tmp_files, start,
  server_root,
}

-- The paths of what is no directory, where it can be reached.
abbrev pub paths : Bytes → Listing → List Bytes
paths path end = []
paths path (directory name readable inner rest) =
    (if is_dots name then [] else if readable then paths (join path name) inner else [])
    ++ paths path rest
paths path (other name rest) = join path name ∷ paths path rest

abbrev pub reachable : Bytes → Bool → Listing → List Bytes
reachable path readable l = if readable then paths path l else []

abbrev has_slash : Bytes → Bool
has_slash [] = false
has_slash (c ∷ s) = c == b'/' || has_slash s

has_slash-join : (p name : Bytes) → has_slash (join p name) ≡ true
has_slash-join [] name = refl
has_slash-join (c ∷ p) name = ground (arith, has_slash-join p name)

drop-join_inside :
    (k : ℕ) (p name : Bytes) → k ≤ length p → drop k (join p name) ≡ join (drop k p) name
drop-join_inside zero p name h = refl
drop-join_inside (suc k) [] name h = ground (arith, h)
drop-join_inside (suc k) (c ∷ p) name h = drop-join_inside k p name (omega (arith, h))

drop-join_behind : (k : ℕ) (p name : Bytes) → drop (suc (length p) + k) (join p name) ≡ drop k name
drop-join_behind k [] name = let e : suc 0 + k ≡ suc k = omega arith in rw e refl
drop-join_behind k (c ∷ p) name =
    let e : suc (suc (length p)) + k ≡ suc (suc (length p) + k) = omega arith in
    rw e (drop-join_behind k p name)

join_differs :
    (p name extension : Bytes)
    → has_slash extension ≡ false
    → eq_bytes (join p name) extension ≡ false
join_differs p name extension plain = elim (Bool-cases (eq_bytes (join p name) extension)) [
  | inl same ↦
      let e : join p name ≡ extension = (eq_bytes_iff (join p name) extension).0 same in
      let slash : has_slash extension ≡ true = rw (← e) (has_slash-join p name) in cc
  | inr differs ↦ differs
]

drop-append : (xs ys : Bytes) → drop (length xs) (xs ++ ys) ≡ ys
drop-append [] ys = refl
drop-append (x ∷ xs) ys = drop-append xs ys

ends_with-join :
    (extension p name : Bytes)
    → has_slash extension ≡ false
    → ends_with extension (join p name) ≡ ends_with extension name
unfolding ends_with
ends_with-join extension p name plain = elim (Bool-cases (leb (length extension) (length name))) [
  | inl fits ↦
      let whole : leb (length extension) (length (join p name)) ≡ true =
        ground (arith, fits, length-append p (b'/' ∷ name)) in
      let at : length (join p name) - length extension
          ≡ suc (length p) + (length name - length extension) =
        ground (arith, fits, length-append p (b'/' ∷ name)) in
      rw (whole, fits, at, drop-join_behind (length name - length extension) p name) refl
  | inr short ↦
      let at : length (join p name) - length extension ≤ length p =
        ground (arith, short, length-append p (b'/' ∷ name)) in
      let differs : eq_bytes (drop (length (join p name) - length extension) (join p name))
            extension
          ≡ false =
        rw (drop-join_inside (length (join p name) - length extension) p name at)
          (join_differs (drop (length (join p name) - length extension) p) name extension plain) in
      ground (arith, short, differs)
]

module _ (q : Bytes → Bool) where
  keep-append : (xs ys : List Bytes) → keep q (xs ++ ys) ≡ keep q xs ++ keep q ys
  keep-append [] ys = refl
  keep-append (x ∷ xs) ys = ground (arith, keep-append xs ys)

module _ (removes : Bytes → Bool) (extension : Bytes) (plain : has_slash extension ≡ false) where
  abbrev pub is_removed : Bytes → Bool
  is_removed p = ends_with extension p && removes p

  entries_exact :
      (path : Bytes) (l : Listing)
      → let (left, tried) = clean_entries removes extension path l in
        (tried ≡ keep (ends_with extension) (paths path l))
        × (paths path left ≡ keep (λ p. not (is_removed p)) (paths path l))
  unfolding clean_entries
  entries_exact path end = (refl, refl)
  entries_exact path (other name rest) =
      let (a, b) = entries_exact path rest in
      let e = ends_with-join extension path name plain in
      elim (Bool-cases (ends_with extension name)) [
        | inl tmp ↦ elim (Bool-cases (removes (join path name))) [
          | inl gone ↦ rw (e, tmp, gone) (ap (λ l. join path name ∷ l) a, b)
          | inr stays ↦
              rw (e, tmp, stays) (ap (λ l. join path name ∷ l) a, ap (λ l. join path name ∷ l) b)
        ]
        | inr user ↦ rw (e, user) (a, ap (λ l. join path name ∷ l) b)
      ]
  entries_exact path (directory name readable inner rest) =
      let (a, b) = entries_exact path rest in
      let (c, d) = entries_exact (join path name) inner in
      elim (Bool-cases (is_dots name)) [
        | inl dots ↦ rw dots (a, b)
        | inr named ↦ elim (Bool-cases readable) [
          | inl opened ↦
              let below = paths (join path name) inner in
              rw (named, opened, a, b, c, d)
                (
                  sym (keep-append (ends_with extension) below (paths path rest)),
                  sym (keep-append (λ p. not (is_removed p)) below (paths path rest)),
                )
          | inr closed ↦ rw (named, closed) (a, b)
        ]
      ]

  pub clean_tmp_files_exact :
      (path : Bytes) (readable : Bool) (l : Listing)
      → let (left, tried) = clean_tmp_files removes extension path readable l in
        (tried ≡ keep (ends_with extension) (reachable path readable l))
        × (reachable path readable left
            ≡ keep (λ p. not (is_removed p)) (reachable path readable l))
  unfolding clean_tmp_files
  clean_tmp_files_exact path true l = entries_exact path l
  clean_tmp_files_exact path false l = (refl, refl)

-- Whether a path is among some.
abbrev pub is_among : Bytes → List Bytes → Bool
is_among p ps = exists (eq_bytes p) ps

kept_out :
    (q : Bytes → Bool) (p : Bytes) (ps : List Bytes) → q p ≡ false → is_among p (keep q ps) ≡ false
kept_out q p [] out = refl
kept_out q p (x ∷ ps) out = elim (Bool-cases (q x)) [
  | inl kept ↦ elim (Bool-cases (eq_bytes p x)) [
    | inl same ↦
        let e : p ≡ x = (eq_bytes_iff p x).0 same in let no : q x ≡ false = rw (← e) out in cc
    | inr differs ↦ rw (kept, differs) (kept_out q p ps out)
  ]
  | inr dropped ↦ rw dropped (kept_out q p ps out)
]

ends_with-append : (extension p : Bytes) → ends_with extension (p ++ extension) ≡ true
unfolding ends_with
ends_with-append extension p =
    let at : length (p ++ extension) - length extension ≡ length p =
      omega (arith, length-append p extension) in
    let fits : leb (length extension) (length (p ++ extension)) ≡ true =
      ground (arith, length-append p extension) in
    rw (fits, at, drop-append p extension) (eq_bytes_refl extension)

-- The temporary file that a Writeback to a server with this base directory writes.
abbrev pub tmp_of : WowFsServiceImpl → WriteRequest → Bytes
tmp_of service req = (with_paths service.basedir req no_upload).tmp_path

-- When the server has started over a directory that opendir opens, then among the paths below it
-- that are no directories and are reached through directories that opendir opens there is no
-- temporary file of a Writeback that remove removes.
pub no_upload_left :
    (removes : Bytes → Bool) (crashes : Bool) (l : Listing) (req : WriteRequest)
    → removes (tmp_of (start removes crashes true l).1 req) ≡ true
    → is_among
        (tmp_of (start removes crashes true l).1 req)
        (reachable server_root true (start removes crashes true l).0.0)
      ≡ false
unfolding start
no_upload_left removes crashes l req gone =
    let service = (start removes crashes true l).1 in
    let tmp = tmp_of service req in
    let (tried, left) = clean_tmp_files_exact removes (codes ".wow") refl server_root true l in
    let matched = ends_with-append (codes ".wow") (service.basedir ++ req.path) in
    rw left (kept_out _ tmp (paths server_root l) (rw (matched, gone) refl))
