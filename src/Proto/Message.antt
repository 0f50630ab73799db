-- ===== src/Proto/Message.antt =====
-- crates/proto/src/msg.rs: the requests and the replies, which handles a request names, and which
-- requests are ordered.
use jackalopefs.Common.{ℕ, Bool, true, false, Option, none, some, List}
use jackalopefs.Proto.Types.{Attr, DirEntry, SetAttr, Statfs, Whence}

-- A path is the names from the export's root, and a name its bytes.
abbrev pub FilePath : Type 0
FilePath = List (List ℕ)

pub data Request : Type 0 where
  lookup : (parent : FilePath) (name : List ℕ) → Request
  getattr : (path : Option FilePath) (fh : Option ℕ) → Request
  setattr : (path : Option FilePath) (fh : Option ℕ) (change : SetAttr) → Request
  readlink : (path : FilePath) → Request
  mknod : (parent : FilePath) (name : List ℕ) (mode rdev : ℕ) → Request
  mkdir : (parent : FilePath) (name : List ℕ) (mode : ℕ) → Request
  unlink rmdir : (parent : FilePath) (name : List ℕ) → Request
  symlink : (parent : FilePath) (name target : List ℕ) → Request
  rename :
      (parent : FilePath) (name : List ℕ) (newparent : FilePath) (newname : List ℕ) (flags : ℕ)
      → Request
  link : (path newparent : FilePath) (newname : List ℕ) → Request
  open_file : (fh : ℕ) (path : FilePath) (flags : ℕ) → Request
  create : (fh : ℕ) (parent : FilePath) (name : List ℕ) (mode flags : ℕ) → Request
  read : (fh offset size : ℕ) → Request
  write : (fh offset : ℕ) (bytes : List ℕ) → Request
  release : (fh : ℕ) (ordered : Bool) → Request
  fsync : (fh : ℕ) (datasync : Bool) → Request
  opendir : (fh : ℕ) (path : FilePath) → Request
  readdir : (fh offset max_bytes : ℕ) → Request
  releasedir : (fh : ℕ) (ordered : Bool) → Request
  statfs : (path : FilePath) → Request
  setxattr : (path : FilePath) (name value : List ℕ) (flags : ℕ) → Request
  getxattr : (path : FilePath) (name : List ℕ) → Request
  listxattr : (path : FilePath) → Request
  removexattr : (path : FilePath) (name : List ℕ) → Request
  access : (path : FilePath) (mask : ℕ) → Request
  copy_file_range : (fh_in offset_in fh_out offset_out len : ℕ) → Request
  fallocate : (fh offset len mode : ℕ) → Request
  lseek : (fh offset : ℕ) (whence : Whence) → Request

pub data Response : Type 0 where
  err : ℕ → Response
  entry : Attr → Response
  attr : Attr → Response
  readlink : List ℕ → Response
  ok : Response
  opened : Attr → Response
  read : List ℕ → Response
  written copied seeked : ℕ → Response
  readdir : (entries : List DirEntry) (end : Bool) → Response
  statfs : Statfs → Response
  xattr : List ℕ → Response

-- `Request::fhs`.
unfoldable pub fhs : Request → Option ℕ × Option ℕ
fhs (Request.getattr path fh) = (fh, none)
fhs (Request.setattr path fh change) = (fh, none)
fhs (Request.open_file fh path flags) = (some fh, none)
fhs (Request.create fh parent name mode flags) = (some fh, none)
fhs (Request.read fh offset size) = (some fh, none)
fhs (Request.write fh offset bytes) = (some fh, none)
fhs (Request.release fh ordered) = (some fh, none)
fhs (Request.fsync fh datasync) = (some fh, none)
fhs (Request.fallocate fh offset len mode) = (some fh, none)
fhs (Request.lseek fh offset whence) = (some fh, none)
fhs (Request.opendir fh path) = (some fh, none)
fhs (Request.readdir fh offset max_bytes) = (some fh, none)
fhs (Request.releasedir fh ordered) = (some fh, none)
fhs (Request.copy_file_range fh_in offset_in fh_out offset_out len) = (some fh_in, some fh_out)
fhs _ = (none, none)

-- `Request::changes`.
unfoldable pub changes : Request → Bool
changes (Request.lookup parent name) = false
changes (Request.getattr path fh) = false
changes (Request.readlink path) = false
changes (Request.read fh offset size) = false
changes (Request.readdir fh offset max_bytes) = false
changes (Request.getxattr path name) = false
changes (Request.listxattr path) = false
changes (Request.access path mask) = false
changes (Request.statfs path) = false
changes (Request.lseek fh offset whence) = false
changes (Request.fsync fh datasync) = false
changes (Request.release fh ordered) = ordered
changes (Request.releasedir fh ordered) = ordered
changes _ = true
