-- ===== src/Ids/Agree.antt =====
-- crates/server/src/ids.rs and crates/client/src/ids.rs: what crosses between a client and a server
-- that maps owners.
use jackalopefs.Common.{
  ℕ, ◌^◌, ◌<◌, ◌≡◌, inl, inr, refl, Bool-cases, true, some, List, [], ◌∷◌, map, arith,
}
use jackalopefs.Proto.Message.{Request}
use jackalopefs.Proto.Owners.Acl.{KindOwner, is_posix_acl}
use jackalopefs.Proto.Owners.Acl.Laws.{replaced, IsU32, acl_owners-acl_map}
use jackalopefs.Ids.Server
use jackalopefs.Ids.Server.{own, shown, all_own, admit, admit_flat, admit_acl, reply}
use jackalopefs.Ids.Client
use jackalopefs.Ids.Client.{
  Owned, sent, outgoing, outgoing_owned, outgoing_acl, incoming, local, pair, server_of, server,
}

-- The client's map is for this server.
pub record Serves (m : Server.IdMap) (o : Owned) : Type 0 where
  pub same_uid : m.uid ≡ o.server_uid
  pub same_gid : m.gid ≡ o.server_gid
  pub small_uid : m.uid < 2 ^ 32
  pub small_gid : m.gid < 2 ^ 32

all_own-replaced :
    (m : Server.IdMap) (o : Owned) (owners : List (KindOwner × ℕ))
    → Serves m o
    → all_own m (map (replaced (λ kind id. (pair o kind).0)) owners) ≡ true
unfolding all_own pair
all_own-replaced m o [] s = refl
all_own-replaced m o ((KindOwner.user, id) ∷ rest) s = ground (arith, all_own-replaced m o rest s)
all_own-replaced m o ((KindOwner.group, id) ∷ rest) s = ground (arith, all_own-replaced m o rest s)

pair-IsU32 : (m : Server.IdMap) (o : Owned) → Serves m o → IsU32 (λ kind id. (pair o kind).0)
unfolding pair
pair-IsU32 m o s KindOwner.user id = omega arith
pair-IsU32 m o s KindOwner.group id = omega arith

-- What the client sends for an ACL names only the server's own ids.
acl_sent :
    (m : Server.IdMap) (o : Owned) (path : List (List ℕ)) (name value : List ℕ) (flags : ℕ)
    (r : Request)
    → Serves m o
    → is_posix_acl name ≡ true
    → outgoing_acl o path name value flags ≡ sent (some r)
    → admit_flat m r ≡ Server.ok
unfolding outgoing_acl admit_flat
acl_sent m o path name value flags r s acl e =
    elim (acl_owners-acl_map (λ kind id. (pair o kind).0) value (pair-IsU32 m o s)) [
      | inl (nothing, _) ↦ absurd (ground arith)
      | inr (owners, named, mapped, _) ↦ ground (arith, all_own-replaced m o owners s)
    ]

-- A request that the client sends in server terms is one that the server it is meant for admits,
-- whatever the mode of that server.
pub admit-outgoing :
    (m : Server.IdMap) (o : Owned) (req r : Request)
    → Serves m o
    → outgoing (Client.IdMap.owned o) req ≡ sent (some r)
    → admit m r ≡ Server.ok
unfolding outgoing outgoing_owned admit admit_flat server_of
admit-outgoing m o (Request.setattr path fh change) r s e = ground arith
admit-outgoing m o (Request.setxattr path name value flags) r s e =
    elim (Bool-cases (is_posix_acl name)) [
      | inl acl ↦ ground (arith, acl_sent m o path name value flags r s acl)
      | inr other ↦ absurd (ground arith)
    ]
admit-outgoing m o _ r s e = cc
