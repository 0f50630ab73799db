-- ===== src/Proto/Owners.antt =====
-- crates/proto/src/owners.rs: the owners that a reply carries, and those inside a POSIX ACL in the
-- kernel's form: a little-endian version word, then entries of eight bytes. A byte is below 256.
pub mod Acl
use jackalopefs.Common.{ℕ, Bool, true, false, Option, none, some, List, [], ◌∷◌, map, if◌then◌else◌}
use jackalopefs.Proto.Types.{Attr, DirEntry}
use jackalopefs.Proto.Message.{Request, Response}
use Acl.{KindOwner, acl_map, is_posix_acl}

-- Both owners of a file.
unfoldable pub map_attr : (KindOwner → ℕ → ℕ) → Attr → Attr
map_attr f a = record a { uid = f KindOwner.user a.uid; gid = f KindOwner.group a.gid }

unfoldable pub map_entry : (KindOwner → ℕ → ℕ) → DirEntry → DirEntry
unfolding map_attr
map_entry f e = elim e.attr [ none ↦ e | some a ↦ record e { attr = some (map_attr f a) } ]

-- `map_reply`.
unfoldable pub map_reply : (KindOwner → ℕ → ℕ) → Bool → Response → Response
unfolding map_attr map_entry
map_reply f posix_acl_read (Response.entry a) = Response.entry (map_attr f a)
map_reply f posix_acl_read (Response.attr a) = Response.attr (map_attr f a)
map_reply f posix_acl_read (Response.opened a) = Response.opened (map_attr f a)
map_reply f posix_acl_read (Response.readdir entries end) =
    Response.readdir (map (map_entry f) entries) end
map_reply f posix_acl_read (Response.xattr value) =
    if posix_acl_read then Response.xattr (acl_map f value).0 else Response.xattr value
map_reply f posix_acl_read (Response.err n) = Response.err n
map_reply f posix_acl_read (Response.readlink bytes) = Response.readlink bytes
map_reply f posix_acl_read Response.ok = Response.ok
map_reply f posix_acl_read (Response.read bytes) = Response.read bytes
map_reply f posix_acl_read (Response.written n) = Response.written n
map_reply f posix_acl_read (Response.copied n) = Response.copied n
map_reply f posix_acl_read (Response.seeked n) = Response.seeked n
map_reply f posix_acl_read (Response.statfs s) = Response.statfs s

-- `reads_posix_acl`.
unfoldable pub reads_posix_acl : Request → Bool
reads_posix_acl (Request.getxattr path name) = is_posix_acl name
reads_posix_acl _ = false
