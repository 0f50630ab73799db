-- ===== src/Dirents/Parse.antt =====
-- crates/server/src/dirents.rs: `parse`, of a buffer filled by `getdents64`. A number of the machine has
-- its lowest byte first.
use jackalopefs.Common.{
  ℕ, zero, suc, ◌+◌, ◌-◌, ◌*◌, Option, none, some, List, [], ◌∷◌, ◌==◌, ltb, if◌then◌else◌, length,
  ◌>>=◌,
}

pub record RawDirent : Type 0 where
  pub off : ℕ
  pub name : List ℕ

abbrev pub header_len : ℕ
header_len = 19

-- `from_ne_bytes`.
unfoldable pub from_bytes : List ℕ → ℕ
from_bytes [] = 0
from_bytes (b ∷ bytes) = b + 256 * from_bytes bytes

-- So many bytes and the others; `none` where there are fewer.
unfoldable pub split_at : ℕ → List ℕ → Option (List ℕ × List ℕ)
split_at zero bytes = some ([], bytes)
split_at (suc n) [] = none
split_at (suc n) (b ∷ bytes) = (do (before, after) ← split_at n bytes; some (b ∷ before, after))

-- The bytes before the first that is zero, or all.
unfoldable pub before_zero : List ℕ → List ℕ
before_zero [] = []
before_zero (b ∷ bytes) = let rest = before_zero bytes in if b == 0 then [] else b ∷ rest

-- A record of so many bytes, from the end of its header, and what comes after it.
unfoldable pub parse_sized : ℕ → ℕ → List ℕ → Option (RawDirent × List ℕ)
unfolding split_at before_zero
parse_sized reclen off bytes = if ltb reclen header_len then none else (do
  (area, after) ← split_at (reclen - header_len) bytes
  some (record { off = off; name = before_zero area }, after))

-- The record that the buffer begins with, and what comes after it; `none` where it is cut off or
-- malformed.
unfoldable pub parse_one : List ℕ → Option (RawDirent × List ℕ)
unfolding from_bytes parse_sized
parse_one
      (i0 ∷ i1 ∷ i2 ∷ i3 ∷ i4 ∷ i5 ∷ i6 ∷ i7 ∷ o0 ∷ o1 ∷ o2 ∷ o3 ∷ o4 ∷ o5 ∷ o6 ∷ o7 ∷ l0 ∷ l1
        ∷ kind ∷ rest) =
    parse_sized (from_bytes (l0 ∷ l1 ∷ []))
      (from_bytes (o0 ∷ o1 ∷ o2 ∷ o3 ∷ o4 ∷ o5 ∷ o6 ∷ o7 ∷ [])) rest
parse_one _ = none

-- The loop of `parse`, on fuel.
unfoldable pub parse_from : ℕ → List ℕ → List RawDirent
unfolding parse_one
parse_from zero bytes = []
parse_from (suc fuel) bytes = elim (parse_one bytes) [
  | none ↦ []
  | some (d, rest) ↦ d ∷ parse_from fuel rest
]

-- `parse`. A record has at least one byte.
unfoldable pub parse : List ℕ → List RawDirent
unfolding parse_from
parse bytes = parse_from (length bytes) bytes
