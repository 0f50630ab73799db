-- ===== src/Dirents/Round.antt =====
-- crates/server/src/dirents.rs: what `parse` finds in a buffer that is written as getdents64(2) says.
use jackalopefs.Common.{
  ℕ, zero, suc, ◌+◌, ◌-◌, ◌/◌, ◌%◌, ◌^◌, ◌≤◌, ◌<◌, ◌≡◌, refl, ap, ◌∙◌, Bool, true, false, ◌&&◌, not,
  some, List, [], ◌∷◌, ◌++◌, map, arith, ◌==◌, ltb, length, length-append, All,
}
use native.Mathlib.Nat.{pow-zero, pow-suc}
use jackalopefs.Dirents.Parse.{
  RawDirent, from_bytes, split_at, before_zero, parse_sized, parse_one, parse_from, parse,
  header_len,
}

-- A record as the kernel has it; at least one zero ends the name.
pub record Dirent : Type 0 where
  pub ino : ℕ
  pub off : ℕ
  pub kind : ℕ
  pub name : List ℕ
  pub padding : ℕ

unfoldable pub to_bytes : ℕ → ℕ → List ℕ
to_bytes zero n = []
to_bytes (suc k) n = n % 256 ∷ to_bytes k (n / 256)

unfoldable pub zeros : ℕ → List ℕ
zeros zero = []
zeros (suc n) = 0 ∷ zeros n

-- The name, and the zeros after it.
unfoldable pub name_area : Dirent → List ℕ
unfolding zeros
name_area d = d.name ++ zeros (suc d.padding)

unfoldable pub reclen : Dirent → ℕ
unfolding name_area
reclen d = header_len + length (name_area d)

-- The bytes of a record, before others.
unfoldable pub write_one : Dirent → List ℕ → List ℕ
unfolding to_bytes name_area reclen
write_one d rest =
    to_bytes 8 d.ino ++ to_bytes 8 d.off ++ to_bytes 2 (reclen d) ++ d.kind ∷ name_area d ++ rest

unfoldable pub write : List Dirent → List ℕ
unfolding write_one
write [] = []
write (d ∷ ds) = write_one d (write ds)

unfoldable pub no_zero : List ℕ → Bool
no_zero [] = true
no_zero (b ∷ bytes) = not (b == 0) && no_zero bytes

pub record IsDirent (d : Dirent) : Type 0 where
  pub off : d.off < 2 ^ 64
  pub name : no_zero d.name ≡ true
  pub short : reclen d < 2 ^ 16

-- What the server takes of a record.
unfoldable pub raw : Dirent → RawDirent
raw d = record { off = d.off; name = d.name }

from_bytes-to_bytes : (k n : ℕ) → n < 256 ^ k → from_bytes (to_bytes k n) ≡ n
unfolding from_bytes to_bytes
from_bytes-to_bytes zero n h = omega (arith, h, pow-zero 256)
from_bytes-to_bytes (suc k) n h =
    let ih = from_bytes-to_bytes k (n / 256) (omega (arith, h, pow-suc 256 k)) in omega (arith, ih)

split_at-append : (a rest : List ℕ) → split_at (length a) (a ++ rest) ≡ some (a, rest)
unfolding split_at
split_at-append [] rest = refl
split_at-append (b ∷ a) rest = rw (split_at-append a rest) refl

before_zero-append : (a : List ℕ) (n : ℕ) → no_zero a ≡ true → before_zero (a ++ zeros (suc n)) ≡ a
unfolding before_zero no_zero zeros
before_zero-append [] n h = refl
before_zero-append (b ∷ a) n h = rw (before_zero-append a n (ground arith)) (ground arith)

parse_sized-name_area :
    (d : Dirent) (rest : List ℕ)
    → no_zero d.name ≡ true
    → parse_sized (reclen d) d.off (name_area d ++ rest) ≡ some (raw d, rest)
unfolding parse_sized reclen raw
parse_sized-name_area d rest h =
    let long : ltb (19 + length (name_area d)) 19 ≡ false = ground arith in
    let left : 19 + length (name_area d) - 19 ≡ length (name_area d) = omega arith in
    let named : before_zero (name_area d) ≡ d.name = before_zero-append d.name d.padding h in
    rw (long, left, split_at-append (name_area d) rest, named) refl

parse_one-write_one :
    (d : Dirent) (rest : List ℕ) → IsDirent d → parse_one (write_one d rest) ≡ some (raw d, rest)
unfolding parse_one write_one to_bytes
parse_one-write_one d rest h =
    let size = from_bytes-to_bytes 2 (reclen d) h.short in
    let off = from_bytes-to_bytes 8 d.off h.off in
    ap (λ (n : ℕ). parse_sized n (from_bytes (to_bytes 8 d.off)) (name_area d ++ rest)) size
    ∙ ap (λ (n : ℕ). parse_sized (reclen d) n (name_area d ++ rest)) off
    ∙ parse_sized-name_area d rest h.name

parse_from-some :
    (fuel : ℕ) (bytes : List ℕ) (r : RawDirent) (rest : List ℕ)
    → parse_one bytes ≡ some (r, rest)
    → parse_from (suc fuel) bytes ≡ r ∷ parse_from fuel rest
unfolding parse_from
parse_from-some fuel bytes r rest e = rw (e, parse_from) refl

-- With fuel for each record, all are found.
parse_from-write :
    (fuel : ℕ) (ds : List Dirent)
    → length ds ≤ fuel
    → All IsDirent ds
    → parse_from fuel (write ds) ≡ map raw ds
unfolding parse_from write
parse_from-write zero [] h a = refl
parse_from-write (suc fuel) [] h a = refl
parse_from-write zero (d ∷ ds) h a = absurd (omega (arith, h))
parse_from-write (suc fuel) (d ∷ ds) h a =
    parse_from-some fuel (write_one d (write ds)) (raw d) (write ds)
      (parse_one-write_one d (write ds) a.0)
    ∙ ap (λ (rs : List RawDirent). raw d ∷ rs) (parse_from-write fuel ds (omega (arith, h)) a.1)

length-write_le : (ds : List Dirent) → length ds ≤ length (write ds)
unfolding write write_one to_bytes
length-write_le [] = omega arith
length-write_le (d ∷ ds) = omega (arith, length-append (name_area d) (write ds), length-write_le ds)

-- A buffer of records, each with an offset of 64 bits, a name with no zero byte, at least one zero after
-- it and a length of 16 bits, whatever its other fields, gives the offset and the name of each record, in
-- order.
pub parse-write : (ds : List Dirent) → All IsDirent ds → parse (write ds) ≡ map raw ds
unfolding parse
parse-write ds a = parse_from-write (length (write ds)) ds (length-write_le ds) a
