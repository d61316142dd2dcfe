-- ===== src/Execution/Mounts/Examples.antt =====
-- Tests: a scratch root on the local disk, and a library on a share.
use anime_db.Base.{String, ◌≡◌, refl, inl, inr, true, false, none, [], ◌∷◌, ◌++◌, ok}
use anime_db.Execution.Mounts.Places.{Place, within}
use anime_db.Execution.Mounts.{MountRecord, Descriptor, check_mounts, check_production_mount}
use anime_db.Execution.Mounts.Aliases.{
  check_mounts-no_mount, check_mounts-one_name, production-one_name,
}

-- The disk at `/`, once more at `/` for a directory of it, and a share at `/media`.
abbrev disk : MountRecord
disk = record {
  mount_id = 1;
  parent_id = 1;
  device = (8, 1);
  fs_root = [];
  point = [];
  fstype = "ext4";
  source = "/dev/sda1";
  options = "rw" ∷ [];
}

abbrev bind : MountRecord
bind = record {
  mount_id = 2;
  parent_id = 1;
  device = (8, 1);
  fs_root = "srv" ∷ [];
  point = "srv" ∷ [];
  fstype = "ext4";
  source = "/dev/sda1";
  options = "rw" ∷ [];
}

abbrev media : MountRecord
media = record {
  mount_id = 3;
  parent_id = 1;
  device = (0, 40);
  fs_root = "share" ∷ [];
  point = "media" ∷ [];
  fstype = "cifs";
  source = "//nas/video";
  options = "rw" ∷ [];
}

-- The same share once more, at a directory of it.
abbrev films : MountRecord
films = record media {
  mount_id = 4;
  parent_id = 3;
  fs_root = "share" ∷ "films" ∷ [];
  point = "media" ∷ "films" ∷ [];
}

abbrev scratch : Place
scratch = "srv" ∷ "scratch" ∷ "root" ∷ []

abbrev fd : Descriptor
fd = record { mount_id = 1; device = (8, 1); read_only = false }

accepted : check_mounts false scratch fd (disk ∷ bind ∷ media ∷ []) ≡ ok disk
unfolding check_mounts
accepted = refl

check_mounts-no_mount_example : within scratch media.point ≡ false
check_mounts-no_mount_example =
    check_mounts-no_mount false scratch fd (disk ∷ bind ∷ media ∷ []) disk media accepted
      (inr (inr (inl refl))) refl

check_mounts-one_name_example :
    bind.point ++ ("scratch" ∷ "root" ∷ "a.mkv" ∷ []) ≡ scratch ++ ("a.mkv" ∷ [])
check_mounts-one_name_example =
    check_mounts-one_name false scratch fd (disk ∷ bind ∷ media ∷ []) disk bind ("a.mkv" ∷ [])
      ("scratch" ∷ "root" ∷ "a.mkv" ∷ []) accepted (inr (inl refl)) refl refl refl

abbrev library : Place
library = "media" ∷ "films" ∷ []

abbrev same : String → String
same s = s

production_accepted :
    check_production_mount same true "//nas/video"
      ("share" ∷ "films" ∷ [])
      true
      library
      none
      (disk ∷ media ∷ films ∷ [])
    ≡ ok films
unfolding check_production_mount
production_accepted = refl

production-one_name_example : media.point ++ ("films" ∷ "a.mkv" ∷ []) ≡ library ++ ("a.mkv" ∷ [])
production-one_name_example =
    production-one_name same true "//nas/video" ("share" ∷ "films" ∷ []) true library none
      (disk ∷ media ∷ films ∷ []) films media ("a.mkv" ∷ []) ("films" ∷ "a.mkv" ∷ [])
      production_accepted (inr (inl refl)) refl refl refl
