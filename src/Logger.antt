-- ===== src/Logger.antt =====
-- wowUtils/WowLogger.H: what a line of the log says.
use wow_so_distributed.Base.{
  Bool, false, ◌==◌, ◌||◌, [], ◌∷◌, ◌++◌, Bytes, codes, ◌≡◌, refl, arith, if◌then◌else◌,
}

-- The loop of filename: `file` is the pointer behind the last slash so far.
unfoldable pub filename_from : Bytes → Bytes → Bytes
filename_from file [] = file
filename_from file (c ∷ path) =
    let behind = filename_from path path in
    let on = filename_from file path in if c == b'/' then behind else on

unfoldable pub filename : Bytes → Bytes
unfolding filename_from
filename path = filename_from path path

-- LogBasic, with the line's number as its digits.
unfoldable pub log_line : Bytes → Bytes → Bytes → Bytes → Bytes
log_line kind file line str = kind ++ codes " [" ++ file ++ codes ":" ++ line ++ codes "] " ++ str

abbrev pub has_slash : Bytes → Bool
has_slash [] = false
has_slash (c ∷ path) = c == b'/' || has_slash path

-- A path without a slash is its own file name.
filename_from_plain : (file path : Bytes) → has_slash path ≡ false → filename_from file path ≡ file
unfolding filename_from
filename_from_plain file [] h = refl
filename_from_plain file (c ∷ path) h = ground (arith, h, filename_from_plain file path)

-- The pointer comes to stand behind the last slash.
filename_from_lem :
    (file dir name : Bytes)
    → has_slash name ≡ false
    → filename_from file (dir ++ b'/' ∷ name) ≡ name
unfolding filename_from
filename_from_lem file [] name h = filename_from_plain name name h
filename_from_lem file (c ∷ dir) name h =
    ground
      (arith, filename_from_lem file dir name h, filename_from_lem (dir ++ b'/' ∷ name) dir name h)

-- The file name of a path is what stands behind its last slash.
pub filename_lem :
    (dir name : Bytes) → has_slash name ≡ false → filename (dir ++ b'/' ∷ name) ≡ name
unfolding filename
filename_lem dir name h = filename_from_lem (dir ++ b'/' ∷ name) dir name h
