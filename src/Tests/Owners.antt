-- ===== src/Tests/Owners.antt =====
-- crates/proto/src/owners.rs, crates/server/src/ids.rs and crates/client/src/ids.rs: a server of user
-- 1000 and group 100, and a mount of user 5 and group 6.
use jackalopefs.Common.{
  ℕ, ◌≡◌, ◌⊎◌, refl, true, false, none, some, List, [], ◌∷◌, map, arith, ◌==◌, if◌then◌else◌,
}
use jackalopefs.Proto.Types.{Attr, FileKind}
use jackalopefs.Proto.Message.{Request, Response}
use jackalopefs.Proto.Owners.Acl.{
  KindOwner, nobody, codes, is_posix_acl, same_bytes, acl_owners, acl_map, acl_entries_raw, chunks,
  owners_of, owner_of, map_owner, with_id, all_bytes, to_bytes, version_bytes,
}
use jackalopefs.Proto.Owners.Acl.Laws.{replaced, acl_owners-acl_map}
use jackalopefs.Ids.Server
use jackalopefs.Ids.Server.{own, shown, admit, reply}
use jackalopefs.Ids.Client.{
  Owned, outgoing, outgoing_owned, outgoing_acl, outgoing_setattr, server_of, all_mapped, server,
  pair, local,
}
use jackalopefs.Ids.Agree.{Serves, admit-outgoing}
use jackalopefs.Ids.Shown.{Owners, IsOwn, reply-IsOwn, local-shown}

program : Unit {0}
unfolding is_posix_acl same_bytes acl_owners acl_map acl_entries_raw chunks owners_of owner_of
    map_owner with_id all_bytes to_bytes version_bytes outgoing outgoing_owned outgoing_acl
    outgoing_setattr server_of all_mapped server pair Server.new
program = tt

abbrev serving : Server.IdMap
serving = record { mode = Server.ModeIds.flatten; uid = 1000; gid = 100 }

abbrev mounted : Owned
mounted = record { server_uid = 1000; server_gid = 100; local_uid = 5; local_gid = 6 }

serving-Serves : Serves serving mounted
serving-Serves = record {
  same_uid = refl;
  same_gid = refl;
  small_uid = omega arith;
  small_gid = omega arith;
}

-- An ACL that names a user, the file's own group, and a group.
abbrev acl : ℕ → ℕ → ℕ → List ℕ
acl u0 u1 g =
    2 ∷ 0 ∷ 0 ∷ 0 ∷ 2 ∷ 0 ∷ 7 ∷ 0 ∷ u0 ∷ u1 ∷ 0 ∷ 0 ∷ 4 ∷ 0 ∷ 7 ∷ 0 ∷ 255 ∷ 255 ∷ 255 ∷ 255 ∷ 8 ∷ 0
    ∷ 5 ∷ 0 ∷ g ∷ 0 ∷ 0 ∷ 0 ∷ []

acl_named : acl_owners (acl 5 0 6) ≡ some ((KindOwner.user, 5) ∷ (KindOwner.group, 6) ∷ [])
unfolding program
acl_named = refl

abbrev set_acl : ℕ → ℕ → ℕ → Request
set_acl u0 u1 g = Request.setxattr [] (codes "system.posix_acl_access") (acl u0 u1 g) 0

-- 1000 is 232 and 3 times 256.
admit-outgoing_example : admit serving (set_acl 232 3 100) ≡ Server.ok
unfolding program
admit-outgoing_example =
    admit-outgoing serving mounted (set_acl 5 0 6) (set_acl 232 3 100) serving-Serves refl

acl_owners-acl_map_example :
    ((acl_owners (acl 5 0 6) ≡ none) × (acl_map (λ kind id. 9) (acl 5 0 6) ≡ (acl 5 0 6, false)))
    ⊎ ((owners : List (KindOwner × ℕ)) × (acl_owners (acl 5 0 6) ≡ some owners)
        × (acl_owners (acl_map (λ kind id. 9) (acl 5 0 6)).0
            ≡ some (map (replaced (λ kind id. 9)) owners))
        × ((acl_map (λ kind id. 9) (acl 5 0 6)).1 ≡ true))
acl_owners-acl_map_example = acl_owners-acl_map (λ kind id. 9) (acl 5 0 6) (λ kind id. omega arith)

abbrev file_of : ℕ → ℕ → Attr
file_of uid gid = record {
  ino = 1;
  size = 0;
  blocks = 0;
  atime = record { sec = 0; nsec = 0 };
  mtime = record { sec = 0; nsec = 0 };
  ctime = record { sec = 0; nsec = 0 };
  kind = FileKind.regular;
  perm = 0o644;
  nlink = 1;
  uid = uid;
  gid = gid;
  rdev = 0;
  blksize = 4096;
  xattr_names = none;
  identity = record { handle_type = 1; handle = [] };
  foreign = false;
}

reply-IsOwn_example :
    Owners (IsOwn serving) true (reply serving true (Response.attr (file_of 1000 7)))
reply-IsOwn_example =
    reply-IsOwn serving true (Response.attr (file_of 1000 7)) refl (omega arith) (omega arith)

local-shown_example :
    local mounted KindOwner.user (shown serving KindOwner.user 1000)
    ≡ (if 1000 == own serving KindOwner.user then (pair mounted KindOwner.user).1 else nobody)
unfolding program
local-shown_example = local-shown serving mounted KindOwner.user 1000 serving-Serves refl
