-- ===== src/Tests/Dirents.antt =====
-- crates/server/src/dirents.rs: a directory of the dot, a file that can be described and one that is gone.
use jackalopefs.Common.{
  ℕ, ◌≡◌, ◌⊎◌, refl, true, false, Option, none, some, List, [], ◌∷◌, map, arith, ◌==◌,
  if◌then◌else◌, All,
}
use jackalopefs.Proto.Types.{Attr, FileKind}
use jackalopefs.Proto.Path.{new_name, any_bad, is_dots}
use jackalopefs.Dirents.Parse.{
  RawDirent, from_bytes, split_at, before_zero, parse_sized, parse_one, parse_from, parse,
}
use jackalopefs.Dirents.Round.{
  Dirent, to_bytes, zeros, name_area, reclen, write_one, write, no_zero, IsDirent, raw, parse-write,
}
use jackalopefs.Dirents.Page.{
  next_multiple, names_bytes, dir_entry_bytes, Described, Filled, entry_failure, entry, describe,
  entry_bytes, collect, Listed, read_fills, read_dir,
}
use jackalopefs.Dirents.Listing.{IsListing, read_dir-IsListing}

program : Unit {0}
unfolding new_name any_bad is_dots from_bytes split_at before_zero parse_sized parse_one parse_from
    parse to_bytes zeros name_area reclen write_one write no_zero raw next_multiple names_bytes
    dir_entry_bytes entry_failure entry describe entry_bytes collect read_fills read_dir
program = tt

abbrev dot : Dirent
dot = record { ino = 10; off = 100; kind = 4; name = b'.' ∷ []; padding = 3 }

abbrev file : Dirent
file = record { ino = 11; off = 70000; kind = 8; name = b'a' ∷ b'b' ∷ []; padding = 2 }

abbrev gone : Dirent
gone = record { ino = 12; off = 90000; kind = 8; name = b'x' ∷ []; padding = 3 }

abbrev all_three : List Dirent
all_three = dot ∷ file ∷ gone ∷ []

abbrev attr_of_file : Attr
attr_of_file = record {
  ino = 11;
  size = 5;
  blocks = 8;
  atime = record { sec = 1; nsec = 0 };
  mtime = record { sec = 1; nsec = 0 };
  ctime = record { sec = 1; nsec = 0 };
  kind = FileKind.regular;
  perm = 420;
  nlink = 1;
  uid = 1000;
  gid = 1000;
  rdev = 0;
  blksize = 4096;
  xattr_names = none;
  identity = record { handle_type = 1; handle = 1 ∷ 2 ∷ [] };
  foreign = false;
}

abbrev attr_entry : RawDirent → Described
attr_entry r = if r.off == 90000 then Described.err 2 else Described.ok attr_of_file

abbrev seek : Option ℕ
seek = none

abbrev buffer : List Filled
unfolding write
buffer = Filled.ok (write all_three) ∷ []

all_three-All : All IsDirent all_three
unfolding program
all_three-All = (
  record { off = omega arith; name = refl; short = omega arith },
  (
    record { off = omega arith; name = refl; short = omega arith },
    (record { off = omega arith; name = refl; short = omega arith }, tt),
  ),
)

parse-write_example : parse (write all_three) ≡ map raw all_three
parse-write_example = parse-write all_three all_three-All

-- The entry of the file that is gone is left out.
listed_two :
    read_dir attr_entry none buffer 65536
    ≡ Listed.ok (record {
      entries =
          record { next_offset = 100; name = b'.' ∷ []; attr = none }
          ∷ record { next_offset = 70000; name = b'a' ∷ b'b' ∷ []; attr = some attr_of_file }
          ∷ [];
      end = true;
    })
unfolding program
listed_two = refl

read_dir-IsListing_example :
    ((seek ≡ none) × IsListing attr_entry 65536 buffer (read_dir attr_entry seek buffer 65536))
    ⊎ ((e : ℕ) × (seek ≡ some e) × (read_dir attr_entry seek buffer 65536 ≡ Listed.err e))
read_dir-IsListing_example = read_dir-IsListing attr_entry seek buffer 65536
