-- ===== src/Dirents/Listing.antt =====
-- crates/server/src/dirents.rs: a page of a directory, by the records of the directory.
use jackalopefs.Common.{
  ℕ, ◌+◌, ◌-◌, ◌%◌, ◌≤◌, ◌<◌, ◌≡◌, ◌⊎◌, inl, inr, refl, sym, subst, true, false, Option, none, some,
  List, [], ◌∷◌, ◌++◌, arith, ◌==◌, if◌then◌else◌, length, All,
}
use jackalopefs.Proto.Types.{Attr, DirEntry}
use jackalopefs.Dirents.Parse.{RawDirent}
use jackalopefs.Dirents.Page.{
  Described, Filled, next_multiple, names_bytes, dir_entry_bytes, entry_bytes, Listed, read_dir,
  read_fills,
}
use jackalopefs.Dirents.Collected.{listed_of, bytes_of, HasRoom, IsFilled}
use jackalopefs.Dirents.Paged.{seen, GoesOn, IsPage, read_fills-IsPage}
use jackalopefs.Dirents.Described.{AreEntries, IsFailed, listed_of-AreEntries, failed-IsFailed}

-- The room that an entry takes in a page: 32 bytes and its name; with attributes 128 more, and the
-- handle; and for each name of an attribute 8 and the name. Each is padded to a multiple of 8.
abbrev pub pad : ℕ → ℕ
pad n = if n % 8 == 0 then n else n + 8 - n % 8

pub names_room : List (List ℕ) → ℕ
names_room [] = 0
names_room (n ∷ names) = 8 + pad (length n) + names_room names

pub attr_room : Option Attr → ℕ
attr_room none = 0
attr_room (some a) =
    128
    + pad (length a.identity.handle)
    + (elim a.xattr_names [ none ↦ 0 | some names ↦ names_room names ])

pub room : DirEntry → ℕ
room d = 32 + pad (length d.name) + attr_room d.attr

pub rooms : List DirEntry → ℕ
rooms [] = 0
rooms (d ∷ es) = room d + rooms es

next_multiple-pad : (n : ℕ) → next_multiple n ≡ pad n
unfolding next_multiple
next_multiple-pad n = ground arith

names_bytes-room : (names : List (List ℕ)) → names_bytes (some names) ≡ names_room names
unfolding names_bytes names_room
names_bytes-room [] = refl
names_bytes-room (n ∷ names) = omega (arith, names_bytes-room names, next_multiple-pad (length n))

xattr_bytes-room :
    (names : Option (List (List ℕ)))
    → names_bytes names ≡ (elim names [ none ↦ 0 | some ns ↦ names_room ns ])
unfolding names_bytes
xattr_bytes-room none = refl
xattr_bytes-room (some names) = names_bytes-room names

attr_bytes-room :
    (n : ℕ) (attr : Option Attr) → dir_entry_bytes n attr ≡ 32 + pad n + attr_room attr
unfolding dir_entry_bytes attr_room
attr_bytes-room n none = omega (arith, next_multiple-pad n)
attr_bytes-room n (some a) = omega (
  arith,
  next_multiple-pad n,
  next_multiple-pad (length a.identity.handle),
  xattr_bytes-room a.xattr_names,
)

entry_bytes-room : (d : DirEntry) → entry_bytes d ≡ room d
unfolding entry_bytes room
entry_bytes-room d = attr_bytes-room (length d.name) d.attr

bytes_of-rooms : (es : List DirEntry) → bytes_of es ≡ rooms es
unfolding rooms
bytes_of-rooms [] = refl
bytes_of-rooms (d ∷ es) = omega (arith, entry_bytes-room d, bytes_of-rooms es)

-- Entries that leave room for another.
abbrev pub LeaveRoom : ℕ → List DirEntry → Type 0
LeaveRoom max_bytes es = (es ≡ []) ⊎ (rooms es < max_bytes)

-- Entries of which the last one filled the page.
abbrev pub AreFull : ℕ → List DirEntry → Type 0
AreFull max_bytes es =
    (max_bytes ≤ rooms es)
    × ((before : List DirEntry) × (d : DirEntry) × (es ≡ before ++ d ∷ [])
        × LeaveRoom max_bytes before)

module _ (attr_entry : RawDirent → Described) (max_bytes : ℕ) where
  -- What is listed of the records that are seen. A page has the entries of those before it was full, or of
  -- all of them; an error is of a record, or of getdents64, after others that left room.
  abbrev pub IsListing : List Filled → Listed → Type 0
  IsListing fills (Listed.ok l) =
      (before : List RawDirent) × (after : List RawDirent) × (seen fills ≡ before ++ after)
      × AreEntries attr_entry before l.entries
      × (((l.end ≡ true) × (after ≡ []) × LeaveRoom max_bytes l.entries)
          ⊎ ((l.end ≡ false) × AreFull max_bytes l.entries))
  IsListing fills (Listed.err e) =
      ((before : List RawDirent) × (raw : RawDirent) × (after : List RawDirent) × (es : List
          DirEntry)
        × (seen fills ≡ before ++ raw ∷ after)
        × AreEntries attr_entry before es
        × LeaveRoom max_bytes es
        × IsFailed attr_entry raw e)
      ⊎ ((before : List Filled) × (after : List Filled) × (es : List DirEntry) × (fills
            ≡ before ++ Filled.err e ∷ after)
          × All GoesOn before
          × AreEntries attr_entry (seen before) es
          × LeaveRoom max_bytes es)

  HasRoom-LeaveRoom : (es : List DirEntry) → HasRoom max_bytes es → LeaveRoom max_bytes es
  unfolding HasRoom
  HasRoom-LeaveRoom es (inl e) = inl e
  HasRoom-LeaveRoom es (inr lt) = inr (omega (arith, lt, bytes_of-rooms es))

  IsFilled-AreFull : (es : List DirEntry) → IsFilled max_bytes es → AreFull max_bytes es
  unfolding IsFilled
  IsFilled-AreFull es (le, (before, d, is, room)) =
      (omega (arith, le, bytes_of-rooms es), (before, d, is, HasRoom-LeaveRoom before room))

  IsPage-IsListing :
      (fills : List Filled) (l : Listed)
      → IsPage attr_entry max_bytes fills [] l
      → IsListing fills l
  unfolding IsPage
  IsPage-IsListing fills (Listed.ok l) (before, after, split, is, all, end) = (
    before,
    after,
    split,
    subst (AreEntries attr_entry before) (sym is) (listed_of-AreEntries attr_entry before all),
    elim end [
      | inl (ends, none_left, room) ↦ inl (ends, none_left, HasRoom-LeaveRoom l.entries room)
      | inr (goes_on, filled) ↦ inr (goes_on, IsFilled-AreFull l.entries filled)
    ],
  )
  IsPage-IsListing fills (Listed.err e) (inl (before, raw, after, split, d, room, all)) = inl (
    before,
    raw,
    after,
    listed_of attr_entry before,
    split,
    listed_of-AreEntries attr_entry before all,
    HasRoom-LeaveRoom (listed_of attr_entry before) room,
    failed-IsFailed attr_entry raw e d,
  )
  IsPage-IsListing fills (Listed.err e) (inr (before, after, split, go, room, all)) = inr (
    before,
    after,
    listed_of attr_entry (seen before),
    split,
    go,
    listed_of-AreEntries attr_entry (seen before) all,
    HasRoom-LeaveRoom (listed_of attr_entry (seen before)) room,
  )

-- If the seek fails, the listing is its error. Otherwise a page lists the entries of the records that
-- getdents64 fills, in order, without those whose name is not one and those that the system does not
-- describe, though it is short of no resource: of all the records if it is marked as the end, and then
-- the entries leave room for another; or else of those up to the first entry with which it has at least
-- `max_bytes`. The dots are listed without attributes. An error of the listing is ENFILE, EMFILE or
-- ENOMEM for a record that the system could not describe, or an error of getdents64; and then the
-- entries of all the records before it left room for another.
pub read_dir-IsListing :
    (attr_entry : RawDirent → Described) (seek : Option ℕ) (fills : List Filled) (max_bytes : ℕ)
    → ((seek ≡ none)
        × IsListing attr_entry max_bytes fills (read_dir attr_entry seek fills max_bytes))
      ⊎ ((e : ℕ) × (seek ≡ some e) × (read_dir attr_entry seek fills max_bytes ≡ Listed.err e))
unfolding read_dir HasRoom
read_dir-IsListing attr_entry none fills max_bytes = inl (
  refl,
  IsPage-IsListing attr_entry max_bytes fills (read_fills attr_entry max_bytes fills 0 [])
      (read_fills-IsPage attr_entry max_bytes fills 0 [] refl (inl refl)),
)
read_dir-IsListing attr_entry (some e) fills max_bytes = inr (e, refl, refl)
