-- ===== src/Nodes/Probes.antt =====
-- crates/client/src/inodes.rs: the search for a free number ends.
use jackalopefs.Common.{
  ℕ, zero, suc, ◌+◌, ◌-◌, ◌^◌, ◌≤◌, ◌<◌, ◌≡◌, ◌≢◌, inl, inr, Bool, Bool-cases, true, not, ◌&&◌,
  Option-cases, none, List, [], ◌∷◌, arith, ◌==◌, ltb, if◌then◌else◌, length, count_if, is_key,
}
use jackalopefs.Proto.Types.{Identity}
use jackalopefs.Nodes.Table.{Node, NodeTable, Seen, root, key_of}
use jackalopefs.Nodes.Numbers.{next_id, free_from, substitute, fnv, id_for, root_key, is_root_key}

abbrev ids : ℕ
ids = 2 ^ 64

-- How many steps after `id` the search comes to `j`.
abbrev steps_to : ℕ → ℕ → ℕ
steps_to id j = if ltb j id then j + (ids - 2) - id else j - id

abbrev within : ℕ → ℕ → ℕ → Bool
within fuel id j = ltb 1 j && ltb j ids && ltb (steps_to id j) fuel

abbrev entries_within : ℕ → ℕ → List (ℕ × Node) → ℕ
entries_within fuel id m = count_if (λ e. within fuel id e.0) m

within_next :
    (fuel id j : ℕ)
    → 2 ≤ id
    → id < ids
    → fuel < ids - 2
    → (if within fuel (next_id id) j then 1 else 0) + (if j == id then 1 else 0)
      ≤ (if within (suc fuel) id j then 1 else 0)
unfolding next_id
within_next fuel id j lo hi small = ground arith

entries_next :
    (m : List (ℕ × Node)) (fuel id : ℕ)
    → 2 ≤ id
    → id < ids
    → fuel < ids - 2
    → entries_within fuel (next_id id) m + count_if (λ e. e.0 == id) m
      ≤ entries_within (suc fuel) id m
entries_next [] fuel id lo hi small = omega arith
entries_next ((j, n) ∷ m) fuel id lo hi small =
    omega (arith, entries_next m fuel id lo hi small, within_next fuel id j lo hi small)

taken-count : (m : List (ℕ × Node)) (id : ℕ) → is_key id m ≡ true → 1 ≤ count_if (λ e. e.0 == id) m
taken-count [] id h = cc
taken-count ((j, n) ∷ m) id h = ground (arith, taken-count m id)

free_from_total :
    (fuel id : ℕ) (m : List (ℕ × Node))
    → 2 ≤ id
    → id < ids
    → fuel < ids - 2
    → entries_within fuel id m < fuel
    → free_from fuel id m ≢ none
unfolding free_from next_id
free_from_total zero id m lo hi small h e = omega arith
free_from_total (suc fuel) id m lo hi small h e = elim (Bool-cases (is_key id m)) [
  | inr free ↦ ground arith
  | inl taken ↦
      free_from_total fuel (next_id id) m (next_lo id) (next_hi id) (omega arith)
        (omega (arith, entries_next m fuel id lo hi (omega arith), taken-count m id taken))
        (ground arith)
]
  where
    next_lo : (k : ℕ) → 2 ≤ next_id k
    next_lo k = omega arith

    next_hi : (k : ℕ) → next_id k < ids
    next_hi k = omega arith

entries-le : (m : List (ℕ × Node)) (fuel id : ℕ) → entries_within fuel id m ≤ length m
entries-le [] fuel id = omega arith
entries-le ((j, n) ∷ m) fuel id = ground (arith, entries-le m fuel id)

fnv-lt : (bs : List ℕ) (hash : ℕ) → hash < ids → fnv hash bs < ids
unfolding fnv
fnv-lt [] hash h = h
fnv-lt (b ∷ bs) hash h = fnv-lt bs _ (omega arith)

substitute-lt : (i : Identity) → substitute i < ids
unfolding substitute
substitute-lt i = omega (arith, fnv-lt _ 0xcbf29ce484222325 (omega arith))

-- A number is found for every file, if the table has fewer than 2^64 - 3 nodes.
pub id_for_total : (t : NodeTable) (s : Seen) → length t.nodes < 2 ^ 64 - 3 → id_for t s ≢ none
unfolding id_for substitute
id_for_total t s small e = elim (Bool-cases (s.ino == root && is_root_key s (root_key t))) [
  | inl is_root ↦ ground arith
  | inr not_root ↦ elim (Option-cases (t.by_key (key_of s))) [
    | inr (known, there) ↦ ground arith
    | inl new ↦ elim (Bool-cases (not s.foreign && ltb root s.ino && not (is_key s.ino t.nodes))) [
      | inl own ↦ ground arith
      | inr other ↦
          free_from_total (suc (length t.nodes)) (substitute s.identity) t.nodes (omega arith)
            (substitute-lt s.identity) (omega arith)
            (omega (arith, entries-le t.nodes (suc (length t.nodes)) (substitute s.identity)))
            (ground arith)
    ]
  ]
]
