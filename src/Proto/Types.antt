-- ===== src/Proto/Types.antt =====
-- crates/proto/src/types.rs: the values that requests and replies share. Integers of every width are
-- numbers, a signed one its bit pattern.
use jackalopefs.Common.{ℕ, Bool, Option, List}

pub record TimeSpec : Type 0 where
  pub sec : ℕ
  pub nsec : ℕ

pub data Whence : Type 0 where
  data_at hole : Whence

pub data FileKind : Type 0 where
  regular directory symlink fifo socket char_device block_device : FileKind

pub record Identity : Type 0 where
  pub handle_type : ℕ
  pub handle : List ℕ

pub record Attr : Type 0 where
  pub ino : ℕ
  pub size : ℕ
  pub blocks : ℕ
  pub atime : TimeSpec
  pub mtime : TimeSpec
  pub ctime : TimeSpec
  pub kind : FileKind
  pub perm : ℕ
  pub nlink : ℕ
  pub uid : ℕ
  pub gid : ℕ
  pub rdev : ℕ
  pub blksize : ℕ
  pub xattr_names : Option (List (List ℕ))
  pub identity : Identity
  pub foreign : Bool

pub record Statfs : Type 0 where
  pub blocks : ℕ
  pub bfree : ℕ
  pub bavail : ℕ
  pub files : ℕ
  pub ffree : ℕ
  pub bsize : ℕ
  pub namelen : ℕ
  pub frsize : ℕ

pub record DirEntry : Type 0 where
  pub next_offset : ℕ
  pub name : List ℕ
  pub attr : Option Attr

pub data TimeOrNow : Type 0 where
  time : TimeSpec → TimeOrNow
  now : TimeOrNow

pub record SetAttr : Type 0 where
  pub mode : Option ℕ
  pub uid : Option ℕ
  pub gid : Option ℕ
  pub size : Option ℕ
  pub atime : Option TimeOrNow
  pub mtime : Option TimeOrNow
