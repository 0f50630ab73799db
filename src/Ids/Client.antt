-- ===== src/Ids/Client.antt =====
-- crates/client/src/ids.rs: how a mount shows owners, and what it sends for them. The local ids are
-- this process's effective ones, given by the operating system.
use jackalopefs.Common.{
  ℕ, Bool, true, false, ◌||◌, not, Option, none, some, List, [], ◌∷◌, ◌==◌, if◌then◌else◌, ◌>>=◌,
}
use jackalopefs.Proto.Types.{SetAttr}
use jackalopefs.Proto.Message.{Request, Response}
use jackalopefs.Proto.Owners.{map_reply, reads_posix_acl}
use jackalopefs.Proto.Owners.Acl.{KindOwner, nobody, is_posix_acl, acl_owners, acl_map}

pub data ModeIds : Type 0 where
  direct owned : ModeIds

pub record Owned : Type 0 where
  pub server_uid : ℕ
  pub server_gid : ℕ
  pub local_uid : ℕ
  pub local_gid : ℕ

pub data IdMap : Type 0 where
  direct : IdMap
  owned : Owned → IdMap

-- What `outgoing` answers: the request in server terms if it has owners, or `Error::Unmapped`.
pub data Outgoing : Type 0 where
  sent : Option Request → Outgoing
  unmapped : Outgoing

-- `IdMap::new`, from the ids of this process.
unfoldable pub new : ModeIds → ℕ → ℕ → ℕ → ℕ → IdMap
new ModeIds.direct server_uid server_gid uid gid = IdMap.direct
new ModeIds.owned server_uid server_gid uid gid =
    IdMap.owned (record {
      server_uid = server_uid;
      server_gid = server_gid;
      local_uid = uid;
      local_gid = gid;
    })

-- `Owned::pair`.
unfoldable pub pair : Owned → KindOwner → ℕ × ℕ
pair o KindOwner.user = (o.server_uid, o.local_uid)
pair o KindOwner.group = (o.server_gid, o.local_gid)

-- `Owned::local`.
unfoldable pub local : Owned → KindOwner → ℕ → ℕ
unfolding pair
local o kind id = if id == (pair o kind).0 then (pair o kind).1 else nobody

-- `Owned::server`; `none` is `Error::Unmapped`.
unfoldable pub server : Owned → KindOwner → ℕ → Option ℕ
unfolding pair
server o kind id = if id == (pair o kind).1 then some (pair o kind).0 else none

-- `.map(|id| self.server(kind, id)).transpose()`.
unfoldable pub server_of : Owned → KindOwner → Option ℕ → Option (Option ℕ)
unfolding server
server_of o kind none = some none
server_of o kind (some id) = do n ← server o kind id; some (some n)

is_given : Option ℕ → Bool
is_given none = false
is_given (some id) = true

unfoldable pub all_mapped : Owned → List (KindOwner × ℕ) → Bool
unfolding server
all_mapped o [] = true
all_mapped o ((kind, id) ∷ rest) = elim (server o kind id) [
  | none ↦ false
  | some n ↦ all_mapped o rest
]

unfoldable pub outgoing_setattr : Owned → Option (List (List ℕ)) → Option ℕ → SetAttr → Outgoing
unfolding server_of is_given
outgoing_setattr o path fh change =
    if is_given change.uid || is_given change.gid
    then elim (server_of o KindOwner.user change.uid) [
      | none ↦ unmapped
      | some uid ↦ elim (server_of o KindOwner.group change.gid) [
        | none ↦ unmapped
        | some gid ↦ sent (some (Request.setattr path fh (record change { uid = uid; gid = gid })))
      ]
    ]
    else sent none

unfoldable pub outgoing_acl : Owned → List (List ℕ) → List ℕ → List ℕ → ℕ → Outgoing
unfolding all_mapped pair
outgoing_acl o path name value flags = elim (acl_owners value) [
  | none ↦ sent none
  | some named ↦
      if not (all_mapped o named)
      then unmapped
      else sent
          (some (Request.setxattr path name (acl_map (λ kind id. (pair o kind).0) value).0 flags))
]

-- `Owned::outgoing`.
unfoldable pub outgoing_owned : Owned → Request → Outgoing
unfolding outgoing_setattr outgoing_acl
outgoing_owned o (Request.setattr path fh change) = outgoing_setattr o path fh change
outgoing_owned o (Request.setxattr path name value flags) =
    if is_posix_acl name then outgoing_acl o path name value flags else sent none
outgoing_owned o _ = sent none

-- `IdMap::outgoing`.
unfoldable pub outgoing : IdMap → Request → Outgoing
unfolding outgoing_owned
outgoing IdMap.direct req = sent none
outgoing (IdMap.owned o) req = outgoing_owned o req

-- `IdMap::incoming`, with that of `Owned`.
unfoldable pub incoming : IdMap → Request → Response → Response
unfolding local
incoming IdMap.direct req resp = resp
incoming (IdMap.owned o) req resp = map_reply (local o) (reads_posix_acl req) resp
