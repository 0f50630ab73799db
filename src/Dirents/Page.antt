-- ===== src/Dirents/Page.antt =====
-- crates/server/src/dirents.rs: `read_dir`, a page of a directory, with `dir_entry_bytes` of
-- crates/proto/src/wire.rs. The answers of the system are parameters: of the seek, of each getdents64 until
-- one fills nothing, and of the attributes of each entry. An errno is a number.
use jackalopefs.Common.{
  ℕ, ◌+◌, ◌*◌, ◌/◌, Bool, true, false, ◌||◌, Option, none, some, List, [], ◌∷◌, ◌++◌, ◌==◌, leb,
  if◌then◌else◌, length, sum_by,
}
use jackalopefs.Proto.Types.{Attr, DirEntry}
use jackalopefs.Proto.Path.{Named, new_name, is_dots}
use jackalopefs.Dirents.Parse.{RawDirent, parse}

pub record Listing : Type 0 where
  pub entries : List DirEntry
  pub end : Bool

unfoldable pub next_multiple : ℕ → ℕ
next_multiple n = (n + 7) / 8 * 8

unfoldable pub names_bytes : Option (List (List ℕ)) → ℕ
unfolding next_multiple
names_bytes none = 0
names_bytes (some names) = sum_by (λ (n : List ℕ). 8 + next_multiple (length n)) names

abbrev pub entry_attr_bytes : ℕ
entry_attr_bytes = 128

-- `dir_entry_bytes`.
unfoldable pub dir_entry_bytes : ℕ → Option Attr → ℕ
unfolding next_multiple names_bytes
dir_entry_bytes n none = 32 + next_multiple n + 0
dir_entry_bytes n (some a) =
    32
    + next_multiple n
    + (entry_attr_bytes + next_multiple (length a.identity.handle) + names_bytes a.xattr_names)

pub data Described : Type 0 where
  ok : Attr → Described
  err : ℕ → Described

pub data Filled : Type 0 where
  ok : List ℕ → Filled
  err : ℕ → Filled

-- What becomes of a record.
pub data Fate : Type 0 where
  listed : DirEntry → Fate
  skipped : Fate
  failed : ℕ → Fate

-- `entry_failure`: EMFILE, ENFILE and ENOMEM.
unfoldable pub entry_failure : ℕ → Fate
entry_failure e = if e == 24 || e == 23 || e == 12 then failed e else skipped

unfoldable pub entry : RawDirent → Option Attr → Fate
entry raw attr = listed (record { next_offset = raw.off; name = raw.name; attr = attr })

-- The first lines of the loop on the records.
unfoldable pub describe : (RawDirent → Described) → RawDirent → Fate
unfolding entry entry_failure new_name is_dots
describe attr_entry raw = if is_dots raw.name then entry raw none else elim (new_name raw.name) [
  | Named.err e ↦ skipped
  | Named.ok name ↦ elim (attr_entry raw) [
    | Described.err e ↦ entry_failure e
    | Described.ok attr ↦ entry raw (some attr)
  ]
]

unfoldable pub entry_bytes : DirEntry → ℕ
unfolding dir_entry_bytes
entry_bytes e = dir_entry_bytes (length e.name) e.attr

pub data Collected : Type 0 where
  more : ℕ → List DirEntry → Collected
  full : List DirEntry → Collected
  ended : ℕ → Collected

-- The loop on the records of one buffer.
unfoldable pub collect :
    (RawDirent → Described) → ℕ → List RawDirent → ℕ → List DirEntry → Collected
unfolding describe entry_bytes
collect attr_entry max_bytes [] used entries = more used entries
collect attr_entry max_bytes (raw ∷ raws) used entries = elim (describe attr_entry raw) [
  | skipped ↦ collect attr_entry max_bytes raws used entries
  | failed e ↦ ended e
  | listed e ↦ elim (leb max_bytes (used + entry_bytes e)) [
    | true ↦ full (entries ++ e ∷ [])
    | false ↦ collect attr_entry max_bytes raws (used + entry_bytes e) (entries ++ e ∷ [])
  ]
]

pub data Listed : Type 0 where
  ok : Listing → Listed
  err : ℕ → Listed

-- The outer loop, on what getdents64 fills; at the end it fills nothing.
unfoldable pub read_fills : (RawDirent → Described) → ℕ → List Filled → ℕ → List DirEntry → Listed
unfolding collect parse
read_fills attr_entry max_bytes [] used entries =
    Listed.ok (record { entries = entries; end = true })
read_fills attr_entry max_bytes (Filled.err e ∷ fills) used entries = Listed.err e
read_fills attr_entry max_bytes (Filled.ok [] ∷ fills) used entries =
    Listed.ok (record { entries = entries; end = true })
read_fills attr_entry max_bytes (Filled.ok (b ∷ bytes) ∷ fills) used entries =
    elim (collect attr_entry max_bytes (parse (b ∷ bytes)) used entries) [
      | more u es ↦ read_fills attr_entry max_bytes fills u es
      | full es ↦ Listed.ok (record { entries = es; end = false })
      | ended e ↦ Listed.err e
    ]

-- `read_dir`.
unfoldable pub read_dir : (RawDirent → Described) → Option ℕ → List Filled → ℕ → Listed
unfolding read_fills
read_dir attr_entry (some e) fills max_bytes = Listed.err e
read_dir attr_entry none fills max_bytes = read_fills attr_entry max_bytes fills 0 []
