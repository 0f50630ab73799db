-- ===== src/Ids/Shown.antt =====
-- crates/server/src/ids.rs and crates/client/src/ids.rs: which owners a reply carries to a mount.
use jackalopefs.Common.{
  ℕ, ◌^◌, ◌<◌, ◌≡◌, ◌⊎◌, inl, inr, Bool, true, false, some, List, [], ◌∷◌, map, some-injective, sym,
  subst, ◌∙◌, Option-cases, arith, ◌==◌, if◌then◌else◌, All,
}
use jackalopefs.Proto.Types.{Attr, DirEntry}
use jackalopefs.Proto.Message.{Response}
use jackalopefs.Proto.Owners.{map_reply, map_attr, map_entry}
use jackalopefs.Proto.Owners.Acl.{KindOwner, nobody, acl_owners, acl_map}
use jackalopefs.Proto.Owners.Acl.Laws.{replaced, IsU32, acl_owners-acl_map}
use jackalopefs.Ids.Server
use jackalopefs.Ids.Server.{own, shown, reply}
use jackalopefs.Ids.Client.{Owned, local, pair}
use jackalopefs.Ids.Agree.{Serves}

-- `P` holds of both owners of a file.
abbrev pub AttrOwners : (KindOwner → ℕ → Type 0) → Attr → Type 0
AttrOwners P a = P KindOwner.user a.uid × P KindOwner.group a.gid

abbrev pub EntryOwners : (KindOwner → ℕ → Type 0) → DirEntry → Type 0
EntryOwners P e = (a : Attr) → e.attr ≡ some a → AttrOwners P a

abbrev pub AclOwners : (KindOwner → ℕ → Type 0) → List ℕ → Type 0
AclOwners P value =
    (owners : List (KindOwner × ℕ)) → acl_owners value ≡ some owners → All (λ o. P o.0 o.1) owners

-- `P` holds of every owner in a reply, those of the ACL among them where it answers a read of one.
abbrev pub Owners : (KindOwner → ℕ → Type 0) → Bool → Response → Type 0
Owners P acl (Response.entry a) = AttrOwners P a
Owners P acl (Response.attr a) = AttrOwners P a
Owners P acl (Response.opened a) = AttrOwners P a
Owners P acl (Response.readdir entries end) = All (EntryOwners P) entries
Owners P true (Response.xattr value) = AclOwners P value
Owners P acl _ = Unit {0}

module _ (P : KindOwner → ℕ → Type 0) (f : KindOwner → ℕ → ℕ) (small : IsU32 f)
    (h : (kind : KindOwner) (id : ℕ) → P kind (f kind id)) where
  entry_owners : (e : DirEntry) → EntryOwners P (map_entry f e)
  unfolding map_entry map_attr
  entry_owners e a at = elim (Option-cases e.attr) [
    | inl absent ↦ absurd (ground arith)
    | inr (b, there) ↦
        let same : map_attr f b ≡ a = ground arith in
        subst (AttrOwners P) same (h KindOwner.user b.uid, h KindOwner.group b.gid)
  ]

  entries_owners : (es : List DirEntry) → All (EntryOwners P) (map (map_entry f) es)
  entries_owners [] = tt
  entries_owners (e ∷ es) = (entry_owners e, entries_owners es)

  owners_replaced : (owners : List (KindOwner × ℕ)) → All (λ o. P o.0 o.1) (map (replaced f) owners)
  owners_replaced [] = tt
  owners_replaced ((kind, id) ∷ rest) = (h kind id, owners_replaced rest)

  acl_replaced : (value : List ℕ) → AclOwners P (acl_map f value).0
  acl_replaced value owners e = elim (acl_owners-acl_map f value small) [
    | inl (nothing, same) ↦ absurd (ground arith)
    | inr (old, was, is, _) ↦
        subst (All (λ o. P o.0 o.1)) (some-injective _ _ (sym is ∙ e)) (owners_replaced old)
  ]

  reply-Owners : (acl : Bool) (resp : Response) → Owners P acl (map_reply f acl resp)
  unfolding map_reply map_attr
  reply-Owners acl (Response.entry a) = (h KindOwner.user a.uid, h KindOwner.group a.gid)
  reply-Owners acl (Response.attr a) = (h KindOwner.user a.uid, h KindOwner.group a.gid)
  reply-Owners acl (Response.opened a) = (h KindOwner.user a.uid, h KindOwner.group a.gid)
  reply-Owners acl (Response.readdir entries end) = entries_owners entries
  reply-Owners true (Response.xattr value) = acl_replaced value
  reply-Owners false (Response.xattr value) = tt
  reply-Owners acl _ = tt

-- The server's own id, or nobody's.
abbrev pub IsOwn : Server.IdMap → KindOwner → ℕ → Type 0
IsOwn m kind id = (id ≡ own m kind) ⊎ (id ≡ nobody)

shown-IsOwn : (m : Server.IdMap) (kind : KindOwner) (id : ℕ) → IsOwn m kind (shown m kind id)
unfolding shown
shown-IsOwn m kind id = ground arith

shown-IsU32 : (m : Server.IdMap) → m.uid < 2 ^ 32 → m.gid < 2 ^ 32 → IsU32 (shown m)
unfolding shown own
shown-IsU32 m u g KindOwner.user id = ground arith
shown-IsU32 m u g KindOwner.group id = ground arith

-- A flattening server lets no owner out but its own user and group, and nobody: in no attributes of
-- any reply, and in no ACL that it was asked for.
pub reply-IsOwn :
    (m : Server.IdMap) (acl : Bool) (resp : Response)
    → m.mode ≡ Server.ModeIds.flatten
    → m.uid < 2 ^ 32
    → m.gid < 2 ^ 32
    → Owners (IsOwn m) acl (reply m acl resp)
unfolding reply
reply-IsOwn m acl resp flat u g =
    rw (flat, reply) (reply-Owners (IsOwn m) (shown m) (shown-IsU32 m u g) (shown-IsOwn m) acl resp)

-- What the mount shows of an owner that a flattening server sent: the local user for the server's own,
-- and nobody for any other, where `IdMap::new` accepted the server's own ids.
pub local-shown :
    (m : Server.IdMap) (o : Owned) (kind : KindOwner) (id : ℕ)
    → Serves m o
    → Server.new Server.ModeIds.flatten m.uid m.gid ≡ some m
    → local o kind (shown m kind id) ≡ (if id == own m kind then (pair o kind).1 else nobody)
unfolding local shown own pair Server.new
local-shown m o KindOwner.user id s made = ground arith
local-shown m o KindOwner.group id s made = ground arith
