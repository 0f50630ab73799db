-- ===== src/Tests/Paths.antt =====
-- crates/proto/src/types.rs: the path `a/bc`.
use jackalopefs.Common.{ℕ, ◌≤◌, ◌≡◌, refl, some, List, [], ◌∷◌, arith, length}
use jackalopefs.Proto.Path.{
  IsName, any_bad, is_dots, new_name, ok, byte_len, path_max, from_names, join, split_last,
  to_bytes, new_name_lem, split_last-join, to_bytes-injective,
}

program : Unit {0}
unfolding any_bad is_dots new_name byte_len from_names join split_last to_bytes
program = tt

abbrev a : List ℕ
a = b'a' ∷ []

abbrev bc : List ℕ
bc = b'b' ∷ b'c' ∷ []

a-IsName : IsName a
unfolding program
a-IsName = record {
  some_bytes = omega arith;
  short = omega arith;
  clean = omega arith;
  no_dot = λ e. ground arith;
  no_dots = λ e. cc;
}

bc-IsName : IsName bc
unfolding program
bc-IsName = record {
  some_bytes = omega arith;
  short = omega arith;
  clean = omega arith;
  no_dot = λ e. ground arith;
  no_dots = λ e. cc;
}

new_name_lem_example :
    ((kept : List ℕ) → new_name bc ≡ ok kept → (kept ≡ bc) × IsName bc)
    × (IsName bc → new_name bc ≡ ok bc)
new_name_lem_example = new_name_lem bc

split_last-join_example :
    (length (to_bytes (a ∷ bc ∷ [])) ≤ path_max) × (split_last (a ∷ bc ∷ []) ≡ some (a ∷ [], bc))
unfolding program
split_last-join_example = split_last-join (a ∷ []) bc (a ∷ bc ∷ []) refl

to_bytes-injective_example : a ∷ bc ∷ [] ≡ a ∷ bc ∷ []
to_bytes-injective_example =
    to_bytes-injective (a ∷ bc ∷ []) (a ∷ bc ∷ []) (a-IsName, (bc-IsName, tt))
      (a-IsName, (bc-IsName, tt)) refl
