-- ===== src/Examples/Startups.antt =====
-- The theorems applied to concrete input: the starts of the programs.
use wow_so_distributed.Base.{Bool, true, false, pos, [], ◌∷◌, Bytes, codes, ◌≡◌, refl}
use wow_so_distributed.Host.{WriteRequest, Call, Reply}
use wow_so_distributed.Mount.{Options, main}
use wow_so_distributed.Mount.Starts.{IsStart, main-IsStart}
use wow_so_distributed.Examples.{reply, usual, env_of, plain}
use wow_so_distributed.Server.Startup.{Listing, end, directory, other, start, server_root}
use wow_so_distributed.Server.Startup.Exact.{reachable, is_among, tmp_of, no_upload_left}

-- r/d/a.wow and r/b, besides r/. and r/..
abbrev a_tree : Listing
a_tree = directory (codes ".") true end (
    directory (codes "..") true end
      (directory (codes "d") true (other (codes "a.wow") end) (other (codes "b") end)))

abbrev all_removed : Bytes → Bool
all_removed path = true

abbrev a_request : WriteRequest
a_request = record { path = codes "d/a"; buf = []; size = 0; offset = 0 }

no_upload_left_example :
    is_among
      (tmp_of (start all_removed false true a_tree).1 a_request)
      (reachable server_root true (start all_removed false true a_tree).0.0)
    ≡ false
no_upload_left_example = no_upload_left all_removed false a_tree a_request refl

-- A kernel on which each path is a directory.
abbrev all_dirs : Call → Reply
all_dirs (Call.stat path) = record (reply (pos 0) 0 true) {
  stat = record { mtime_sec = pos 0; mtime_nsec = pos 0; size = pos 0; is_dir = true };
}
all_dirs (Call.realpath path) = record (reply (pos 0) 0 true) { bytes = codes "/base" }
all_dirs c = usual c

abbrev mount_options : Options
mount_options = record { basedir = codes "base"; args = codes "unreliablefs" ∷ codes "/mnt" ∷ [] }

main-IsStart_example :
    IsStart (env_of all_dirs) mount_options plain (main (env_of all_dirs) mount_options plain)
main-IsStart_example = main-IsStart (env_of all_dirs) mount_options plain
