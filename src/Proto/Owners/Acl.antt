-- ===== src/Proto/Owners/Acl.antt =====
-- crates/proto/src/owners.rs: a POSIX ACL as bytes, the owners that it names, and their replacement.
pub mod Laws
use jackalopefs.Common.{
  ℕ, ◌+◌, ◌*◌, ◌/◌, ◌%◌, ◌^◌, ◌<◌, ◌≡◌, refl, Bool, true, false, ◌&&◌, ◌||◌, Option, none, some,
  List, [], ◌∷◌, ◌++◌, map, arith, ◌==◌, if◌then◌else◌, ◌>>=◌, length, All,
}
use Prim.Native.Char.{code}
use Prim.Native.String.{String}
use text.Mathlib.Text.{◌==◌ as str_eq}

-- The kernel's overflow id.
abbrev pub nobody : ℕ
nobody = 65534

pub data KindOwner : Type 0 where
  user group : KindOwner

abbrev pub acl_version : ℕ
acl_version = 2

abbrev pub acl_user : ℕ
acl_user = 0x02

abbrev pub acl_group : ℕ
acl_group = 0x08

-- The bytes of a text in ASCII.
abbrev pub codes : String → List ℕ
codes String.[] = []
codes (String.◌∷◌ c s) = code c ∷ codes s

unfoldable pub same_bytes : List ℕ → List ℕ → Bool
same_bytes [] [] = true
same_bytes (a ∷ as') (b ∷ bs) = a == b && same_bytes as' bs
same_bytes _ _ = false

-- `is_posix_acl`.
unfoldable pub is_posix_acl : List ℕ → Bool
unfolding same_bytes
is_posix_acl name =
    same_bytes name (codes "system.posix_acl_access")
    || same_bytes name (codes "system.posix_acl_default")

-- An entry: its tag, its permissions and its id, byte by byte.
pub record Entry : Type 0 where
  pub tag0 : ℕ
  pub tag1 : ℕ
  pub perm0 : ℕ
  pub perm1 : ℕ
  pub id0 : ℕ
  pub id1 : ℕ
  pub id2 : ℕ
  pub id3 : ℕ

abbrev pub u32_le : ℕ → ℕ → ℕ → ℕ → ℕ
u32_le a b c d = a + b * 256 + c * 65536 + d * 16777216

-- The chunks of eight bytes; `none` where some bytes are left over.
unfoldable pub chunks : List ℕ → Option (List Entry)
chunks [] = some []
chunks (t0 ∷ t1 ∷ p0 ∷ p1 ∷ a ∷ b ∷ c ∷ d ∷ rest) = do
  es ← chunks rest
  some (
      record { tag0 = t0; tag1 = t1; perm0 = p0; perm1 = p1; id0 = a; id1 = b; id2 = c; id3 = d }
      ∷ es)
chunks _ = none

-- `acl_entries_raw`.
unfoldable pub acl_entries_raw : List ℕ → Option (List Entry)
unfolding chunks
acl_entries_raw (a ∷ b ∷ c ∷ d ∷ rest) = do
  es ← chunks rest
  if u32_le a b c d == acl_version then some es else none
acl_entries_raw _ = none

-- `owner_of`.
unfoldable pub owner_of : Entry → Option (KindOwner × ℕ)
owner_of e =
    let id = u32_le e.id0 e.id1 e.id2 e.id3 in
    let tag = e.tag0 + e.tag1 * 256 in
    if tag == acl_user
    then some (KindOwner.user, id)
    else if tag == acl_group
    then some (KindOwner.group, id)
    else none

unfoldable pub owners_of : List Entry → List (KindOwner × ℕ)
unfolding owner_of
owners_of [] = []
owners_of (e ∷ es) = elim (owner_of e) [ none ↦ owners_of es | some o ↦ o ∷ owners_of es ]

-- `acl_owners`.
unfoldable pub acl_owners : List ℕ → Option (List (KindOwner × ℕ))
unfolding acl_entries_raw owners_of
acl_owners value = do es ← acl_entries_raw value; some (owners_of es)

-- The bytes of an entry.
unfoldable pub to_bytes : Entry → List ℕ → List ℕ
to_bytes e rest = e.tag0 ∷ e.tag1 ∷ e.perm0 ∷ e.perm1 ∷ e.id0 ∷ e.id1 ∷ e.id2 ∷ e.id3 ∷ rest

-- The id becomes `n`, of 32 bits.
unfoldable pub with_id : ℕ → Entry → Entry
with_id n e = record e {
  id0 = n % 256;
  id1 = (n / 256) % 256;
  id2 = (n / 65536) % 256;
  id3 = (n / 16777216) % 256;
}

-- The loop's body of `acl_map`.
unfoldable pub map_owner : (KindOwner → ℕ → ℕ) → Entry → Entry
unfolding owner_of with_id
map_owner f e = elim (owner_of e) [ none ↦ e | some (kind, id) ↦ with_id (f kind id) e ]

unfoldable pub all_bytes : List Entry → List ℕ
unfolding to_bytes
all_bytes [] = []
all_bytes (e ∷ es) = to_bytes e (all_bytes es)

-- The first four bytes, which `acl_map` leaves alone.
unfoldable pub version_bytes : List ℕ → List ℕ
version_bytes (a ∷ b ∷ c ∷ d ∷ rest) = a ∷ b ∷ c ∷ d ∷ []
version_bytes _ = []

-- `acl_map`: the value as it leaves it, and what it returns.
unfoldable pub acl_map : (KindOwner → ℕ → ℕ) → List ℕ → List ℕ × Bool
unfolding acl_entries_raw map_owner all_bytes version_bytes
acl_map f value = elim (acl_entries_raw value) [
  | none ↦ (value, false)
  | some es ↦ (version_bytes value ++ all_bytes (map (map_owner f) es), true)
]
