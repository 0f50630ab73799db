-- ===== src/Tests/Nodes.antt =====
-- crates/client/src/inodes.rs: a directory with two names of one file and a foreign file.
use jackalopefs.Common.{
  ℕ, suc, false, ◌≤◌, ◌<◌, ◌↔◌, ◌⊎◌, ◌≡◌, ◌≢◌, refl, true, none, some, List, [], ◌∷◌, Option,
  length, is_key, arith,
}
use jackalopefs.Proto.Types.{FileKind}
use jackalopefs.Proto.Path.{path_max, from_names, to_bytes, split_last}
use jackalopefs.Proto.Owners.Acl.{same_bytes}
use jackalopefs.Nodes.Table.{
  Name, NodeTable, Seen, root, same_identity, same_key, same_alias, key_of, put_name, drop_name,
  put_key, drop_key, is_empty, without, without_alias, drop_alias, moved_alias, child, put_child,
  drop_child,
}
use jackalopefs.Nodes.Numbers.{fnv, substitute, next_id, free_from, is_root_key, root_key, id_for}
use jackalopefs.Nodes.Ops.{
  replace_child, fresh_node, ensure_node, looked_up, register, insert_lookup, root_seen,
  unlink_child, unlink_children, drop_key_of, forgotten, forget, unlink, is_child, rename, exchange,
}
use jackalopefs.Nodes.Names.{
  last_position, newest_path, names_to, path_of, max_depth, resolve_from, resolve_path, same_names,
  is_wrong, without_alias_at, alias_was_wrong,
}
use jackalopefs.Nodes.Views.{has_alias, aliased}
use jackalopefs.Nodes.Kept.{IsTable, key_at}
use jackalopefs.Nodes.Held.{count_at}
use jackalopefs.Nodes.Steps.{Action, new, step, run, insert_lookup_lem}
use jackalopefs.Nodes.Lookups.{lookups_held, told, one_more, answer_of, run-IsHeld}
use jackalopefs.Nodes.Renames.{IsOther, unlink_lem, rename_lem}
use jackalopefs.Nodes.Probes.{id_for_total}
use jackalopefs.Nodes.Paths.{Leads, path_of_lem}

program : Unit {0}
unfolding same_identity same_key same_alias key_of put_name drop_name put_key drop_key is_empty
    without without_alias drop_alias moved_alias child put_child drop_child fnv substitute next_id
    free_from is_root_key root_key id_for replace_child fresh_node ensure_node looked_up register
    insert_lookup root_seen unlink_child unlink_children drop_key_of forgotten forget unlink
    is_child rename exchange last_position newest_path names_to path_of resolve_from resolve_path
    same_names is_wrong without_alias_at alias_was_wrong has_alias aliased key_at new step run
    same_bytes from_names split_last to_bytes lookups_held told one_more answer_of
program = tt

abbrev or_else : Option NodeTable → NodeTable → NodeTable
or_else none t = t
or_else (some u) t = u

abbrev file : ℕ → List ℕ → Seen
file ino handle = record {
  ino = ino;
  identity = record { handle_type = 1; handle = handle };
  foreign = false;
  kind = FileKind.regular;
}

abbrev directory : Seen
directory = record (file 20 (7 ∷ [])) { kind = FileKind.directory }

-- Directory 20 holds `a` and `b`, both names of file 21, and the foreign file `c`; then `a` goes away
-- and `b` takes its name.
abbrev acts : List Action
acts =
    Action.looks_up root (100 ∷ []) directory
    ∷ Action.looks_up 20 (97 ∷ []) (file 21 (8 ∷ []))
    ∷ Action.looks_up 20 (98 ∷ []) (file 21 (8 ∷ []))
    ∷ Action.looks_up 20 (99 ∷ []) (record (file 21 (9 ∷ [])) { foreign = true })
    ∷ Action.unlinks 20 (97 ∷ [])
    ∷ Action.renames 20 (98 ∷ []) 20 (97 ∷ [])
    ∷ []

abbrev after_acts : NodeTable
unfolding program
after_acts = or_else (run new acts) new

path_of_renamed : path_of after_acts 21 ≡ some ((100 ∷ []) ∷ (97 ∷ []) ∷ [])
unfolding program
path_of_renamed = refl

resolve_path_renamed : resolve_path after_acts ((100 ∷ []) ∷ (97 ∷ []) ∷ []) ≡ some 21
unfolding program
resolve_path_renamed = refl

forget_renamed : path_of (forget after_acts 21 2).0 21 ≡ none
unfolding program
forget_renamed = refl

-- The kernel holds two lookups of file 21, which it found under two names.
run-IsHeld_example :
    IsTable after_acts
    × ((d : ℕ)
        → d ≢ root
        → (count_at after_acts.nodes d ≡ lookups_held new acts (λ id. 0) d)
          × ((is_key d after_acts.nodes ≡ true) ↔ (0 < lookups_held new acts (λ id. 0) d)))
unfolding program
run-IsHeld_example = run-IsHeld after_acts acts refl

held_renamed : lookups_held new acts (λ id. 0) 21 ≡ 2
unfolding program
held_renamed = refl

unlink_lem_example :
    (child (unlink after_acts 20 (97 ∷ [])).nodes 20 (97 ∷ []) ≡ none)
    × (aliased (unlink after_acts 20 (97 ∷ [])).nodes (20, 97 ∷ []) 21 ≡ false)
    × ((q : ℕ) (y : Name)
        → IsOther (q, y) (20, 97 ∷ [])
        → child (unlink after_acts 20 (97 ∷ [])).nodes q y ≡ child after_acts.nodes q y)
    × ((q d : ℕ) (y : Name)
        → (d ≢ 21) ⊎ IsOther (q, y) (20, 97 ∷ [])
        → aliased (unlink after_acts 20 (97 ∷ [])).nodes (q, y) d
          ≡ aliased after_acts.nodes (q, y) d)
unfolding program
unlink_lem_example = unlink_lem after_acts 20 21 (97 ∷ []) refl

abbrev renamed : NodeTable
renamed = rename after_acts 20 (97 ∷ []) root (101 ∷ [])

rename_lem_example :
    (child renamed.nodes 20 (97 ∷ []) ≡ none)
    × (is_key root after_acts.nodes ≡ true → child renamed.nodes root (101 ∷ []) ≡ some 21)
    × (aliased renamed.nodes (root, 101 ∷ []) 21 ≡ true)
    × (aliased renamed.nodes (20, 97 ∷ []) 21 ≡ false)
    × ((d : ℕ)
        → child after_acts.nodes root (101 ∷ []) ≡ some d
        → aliased renamed.nodes (root, 101 ∷ []) d ≡ false)
    × ((q : ℕ) (y : Name)
        → IsOther (q, y) (20, 97 ∷ [])
        → IsOther (q, y) (root, 101 ∷ [])
        → child renamed.nodes q y ≡ child after_acts.nodes q y)
    × ((q d : ℕ) (y : Name)
        → IsOther (q, y) (20, 97 ∷ [])
        → IsOther (q, y) (root, 101 ∷ [])
        → aliased renamed.nodes (q, y) d ≡ aliased after_acts.nodes (q, y) d)
unfolding program
rename_lem_example = rename_lem after_acts acts 20 root 21 (97 ∷ []) (101 ∷ []) refl refl (λ e. cc)

abbrev another : Seen
another = file 30 (10 ∷ [])

abbrev looked_up_another : NodeTable
unfolding program
looked_up_another =
    or_else
      (elim (insert_lookup after_acts 20 (98 ∷ []) another) [ none ↦ none | some (t, id) ↦ some t ])
      new

insert_lookup_lem_example :
    (30 ≢ root)
    × (key_at looked_up_another.nodes 30 ≡ some (key_of another))
    × ((d : ℕ) → d ≢ root → key_at looked_up_another.nodes d ≡ some (key_of another) → d ≡ 30)
    × ((d : ℕ) → d ≢ 30 → key_at looked_up_another.nodes d ≡ key_at after_acts.nodes d)
    × (aliased looked_up_another.nodes (20, 98 ∷ []) 30 ≡ true)
    × (is_key 20 after_acts.nodes ≡ true → child looked_up_another.nodes 20 (98 ∷ []) ≡ some 30)
unfolding program
insert_lookup_lem_example =
    insert_lookup_lem after_acts looked_up_another acts 20 30 (98 ∷ []) another refl refl

id_for_total_example : id_for after_acts (record another { foreign = true }) ≢ none
unfolding program
id_for_total_example = id_for_total after_acts (record another { foreign = true }) (omega arith)

path_of_lem_example :
    ((path : List Name)
      → path_of after_acts 21 ≡ some path
      → Leads after_acts.nodes path 21 × (length (to_bytes path) ≤ path_max))
    × ((names : List Name)
        → Leads after_acts.nodes names 21
        → length names ≤ max_depth
        → names_to (suc max_depth) after_acts.nodes 21 ≢ none)
path_of_lem_example = path_of_lem after_acts 21
