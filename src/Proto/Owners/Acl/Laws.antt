-- ===== src/Proto/Owners/Acl/Laws.antt =====
-- crates/proto/src/owners.rs: the owners that are read from a POSIX ACL whose owners were replaced.
use jackalopefs.Common.{
  ℕ, ◌^◌, ◌<◌, ◌≡◌, refl, ap, ◌∙◌, ◌⊎◌, inl, inr, Bool, true, false, none, some, List, [], ◌∷◌,
  ◌++◌, map, arith, Option-cases,
}
use jackalopefs.Proto.Owners.Acl.{
  KindOwner, Entry, u32_le, chunks, acl_entries_raw, owner_of, owners_of, acl_owners, to_bytes,
  with_id, map_owner, all_bytes, version_bytes, acl_map,
}

u32_le-with_id :
    (n : ℕ) (e : Entry)
    → n < 2 ^ 32
    → u32_le (with_id n e).id0 (with_id n e).id1 (with_id n e).id2 (with_id n e).id3 ≡ n
unfolding with_id
u32_le-with_id n e h = omega arith

chunks-all_bytes : (es : List Entry) → chunks (all_bytes es) ≡ some es
unfolding chunks all_bytes to_bytes
chunks-all_bytes [] = refl
chunks-all_bytes (e ∷ es) = rw (chunks-all_bytes es)

-- An owner after the replacement.
abbrev pub replaced : (KindOwner → ℕ → ℕ) → KindOwner × ℕ → KindOwner × ℕ
replaced f (kind, id) = (kind, f kind id)

abbrev pub IsU32 : (KindOwner → ℕ → ℕ) → Type 0
IsU32 f = (kind : KindOwner) (id : ℕ) → f kind id < 2 ^ 32

owner_of-map_owner :
    (f : KindOwner → ℕ → ℕ) (e : Entry)
    → IsU32 f
    → owner_of (map_owner f e) ≡ elim (owner_of e) [ none ↦ none | some o ↦ some (replaced f o) ]
unfolding owner_of map_owner with_id
owner_of-map_owner f e h = ground (
  arith,
  u32_le-with_id (f KindOwner.user (u32_le e.id0 e.id1 e.id2 e.id3)) e (h _ _),
  u32_le-with_id (f KindOwner.group (u32_le e.id0 e.id1 e.id2 e.id3)) e (h _ _),
)

owners_of-map_owner :
    (f : KindOwner → ℕ → ℕ) (es : List Entry)
    → IsU32 f
    → owners_of (map (map_owner f) es) ≡ map (replaced f) (owners_of es)
unfolding owners_of
owners_of-map_owner f [] h = refl
owners_of-map_owner f (e ∷ es) h =
    ground (arith, owner_of-map_owner f e h, owners_of-map_owner f es h)

acl_map-some :
    (f : KindOwner → ℕ → ℕ) (value : List ℕ) (es : List Entry)
    → acl_entries_raw value ≡ some es
    → acl_map f value ≡ (version_bytes value ++ all_bytes (map (map_owner f) es), true)
unfolding acl_map
acl_map-some f value es h = rw (h, acl_map) refl

acl_map-none :
    (f : KindOwner → ℕ → ℕ) (value : List ℕ)
    → acl_entries_raw value ≡ none
    → acl_map f value ≡ (value, false)
unfolding acl_map
acl_map-none f value h = rw (h, acl_map) refl

-- With the version of an ACL and whole entries, it is one.
version_kept :
    (value : List ℕ) (es xs : List Entry)
    → acl_entries_raw value ≡ some es
    → acl_entries_raw (version_bytes value ++ all_bytes xs) ≡ some xs
unfolding acl_entries_raw version_bytes
version_kept [] es xs h = cc
version_kept (a ∷ []) es xs h = cc
version_kept (a ∷ b ∷ []) es xs h = cc
version_kept (a ∷ b ∷ c ∷ []) es xs h = cc
version_kept (a ∷ b ∷ c ∷ d ∷ rest) es xs h = rw (chunks-all_bytes xs) (ground arith)

acl_entries_raw-acl_map :
    (f : KindOwner → ℕ → ℕ) (value : List ℕ) (es : List Entry)
    → acl_entries_raw value ≡ some es
    → acl_entries_raw (acl_map f value).0 ≡ some (map (map_owner f) es)
acl_entries_raw-acl_map f value es h =
    rw (acl_map-some f value es h) (version_kept value es (map (map_owner f) es) h)

acl_owners-some :
    (value : List ℕ) (es : List Entry)
    → acl_entries_raw value ≡ some es
    → acl_owners value ≡ some (owners_of es)
unfolding acl_owners
acl_owners-some value es h = rw (h, acl_owners) refl

acl_owners-none : (value : List ℕ) → acl_entries_raw value ≡ none → acl_owners value ≡ none
unfolding acl_owners
acl_owners-none value h = rw (h, acl_owners) refl

-- An ACL whose owners were replaced names the replacements, in order and of the same kinds, if those
-- are ids of 32 bits; a value that is no ACL stays as it is and `acl_map` says so.
pub acl_owners-acl_map :
    (f : KindOwner → ℕ → ℕ) (value : List ℕ)
    → IsU32 f
    → ((acl_owners value ≡ none) × (acl_map f value ≡ (value, false)))
      ⊎ ((owners : List (KindOwner × ℕ)) × (acl_owners value ≡ some owners)
          × (acl_owners (acl_map f value).0 ≡ some (map (replaced f) owners))
          × ((acl_map f value).1 ≡ true))
acl_owners-acl_map f value h = elim (Option-cases (acl_entries_raw value)) [
  | inl e ↦ inl (acl_owners-none value e, acl_map-none f value e)
  | inr (es, e) ↦ inr (
    owners_of es,
    acl_owners-some value es e,
    acl_owners-some _ (map (map_owner f) es) (acl_entries_raw-acl_map f value es e)
        ∙ ap some (owners_of-map_owner f es h),
    ap (λ (r : List ℕ × Bool). r.1) (acl_map-some f value es e),
  )
]
