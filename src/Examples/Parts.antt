-- ===== src/Examples/Parts.antt =====
-- The theorems applied to concrete input: cache manager, paths, shuffle and file handles.
use wow_so_distributed.Base.{starts_with, pos, [], codes, ◌≡◌, refl, int_eq, bytes_eq, contains}
use wow_so_distributed.Manager.{remove_mount_prefix}
use wow_so_distributed.Manager.Paths.{remove_mount_prefix_inside}
use wow_so_distributed.FhLookup.Refines as Refines
use wow_so_distributed.Examples.{a_file}

perform-IsKept_example :
    Refines.IsKept
      (Refines.perform (Refines.insert (pos 5) a_file) [])
      (Refines.promised (Refines.insert (pos 5) a_file) (Refines.view_of []))
perform-IsKept_example = Refines.perform-IsKept (Refines.insert (pos 5) a_file) [] tt

remove_mount_prefix_inside_example :
    remove_mount_prefix (codes "/home/someone/dir/tmp/wowfs_local/x")
    ≡ remove_mount_prefix (codes "/var/tmp/a/backup/tmp/wowfs_local/x")
unfolding contains starts_with
remove_mount_prefix_inside_example =
    remove_mount_prefix_inside (codes "/home/someone/dir") (codes "/var/tmp/a/backup")
      (codes "/tmp/wowfs_local/x") refl refl refl refl
