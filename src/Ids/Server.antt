-- ===== src/Ids/Server.antt =====
-- crates/server/src/ids.rs: which owners the server lets through.
use jackalopefs.Common.{
  ℕ, Bool, true, false, ◌&&◌, ◌||◌, not, Option, none, some, List, [], ◌∷◌, ◌==◌, if◌then◌else◌,
}
use jackalopefs.Proto.Message.{Request, Response}
use jackalopefs.Proto.Owners.{map_reply}
use jackalopefs.Proto.Owners.Acl.{KindOwner, nobody, is_posix_acl, acl_owners, codes}

pub data ModeIds : Type 0 where
  direct flatten : ModeIds

pub record IdMap : Type 0 where
  pub mode : ModeIds
  pub uid : ℕ
  pub gid : ℕ

pub data Errno : Type 0 where
  eperm einval eopnotsupp : Errno

-- What `admit` answers: the request may run, or the errno.
pub data Admitted : Type 0 where
  ok : Admitted
  refused : Errno → Admitted

abbrev is_flatten : ModeIds → Bool
is_flatten ModeIds.direct = false
is_flatten ModeIds.flatten = true

-- `IdMap::new`; `none` is the refusal.
unfoldable pub new : ModeIds → ℕ → ℕ → Option IdMap
new mode uid gid =
    if is_flatten mode && (uid == nobody || gid == nobody)
    then none
    else some (record { mode = mode; uid = uid; gid = gid })

-- `IdMap::own`.
unfoldable pub own : IdMap → KindOwner → ℕ
own m KindOwner.user = m.uid
own m KindOwner.group = m.gid

-- An id is given, and is another.
unfoldable pub is_other : ℕ → Option ℕ → Bool
is_other mine none = false
is_other mine (some id) = not (id == mine)

unfoldable pub all_own : IdMap → List (KindOwner × ℕ) → Bool
unfolding own
all_own m [] = true
all_own m ((kind, id) ∷ rest) = id == own m kind && all_own m rest

unfoldable pub starts_with : List ℕ → List ℕ → Bool
starts_with [] name = true
starts_with (p ∷ ps) [] = false
starts_with (p ∷ ps) (b ∷ bs) = p == b && starts_with ps bs

-- The attributes of the system other than the POSIX ACLs.
unfoldable pub admit_name : List ℕ → Admitted
unfolding starts_with
admit_name name =
    if starts_with (codes "system.") name && not (is_posix_acl name) then refused eopnotsupp else ok

unfoldable pub admit_acl : IdMap → Option (List (KindOwner × ℕ)) → Admitted
unfolding all_own
admit_acl m none = refused einval
admit_acl m (some named) = if all_own m named then ok else refused eperm

-- The `match` of `admit`.
unfoldable pub admit_flat : IdMap → Request → Admitted
unfolding is_other admit_acl admit_name
admit_flat m (Request.setattr path fh change) =
    if is_other m.uid change.uid || is_other m.gid change.gid then refused eperm else ok
admit_flat m (Request.setxattr path name value flags) =
    if is_posix_acl name then admit_acl m (acl_owners value) else admit_name name
admit_flat m (Request.getxattr path name) = admit_name name
admit_flat m (Request.removexattr path name) = admit_name name
admit_flat m _ = ok

-- `IdMap::admit`.
unfoldable pub admit : IdMap → Request → Admitted
unfolding admit_flat
admit m req = if is_flatten m.mode then admit_flat m req else ok

-- What `reply` shows of an owner.
unfoldable pub shown : IdMap → KindOwner → ℕ → ℕ
unfolding own
shown m kind id = if id == own m kind then id else nobody

-- `IdMap::reply`.
unfoldable pub reply : IdMap → Bool → Response → Response
unfolding shown
reply m posix_acl_read resp =
    if is_flatten m.mode then map_reply (shown m) posix_acl_read resp else resp
