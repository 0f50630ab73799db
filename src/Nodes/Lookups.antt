-- ===== src/Nodes/Lookups.antt =====
-- crates/client/src/inodes.rs: the lookups that the kernel holds, and what the table keeps of them.
use jackalopefs.Common.{
  ℕ, suc, ◌-◌, ◌<◌, ◌≡◌, ◌≢◌, ◌↔◌, inl, inr, subst, ◌∙◌, Bool-cases, true, Option-cases, Option,
  none, some, some-injective, List, [], ◌∷◌, arith, ◌==◌, if◌then◌else◌, >>=-eq-some, is_key,
  lookup,
}
use jackalopefs.Nodes.Table.{Name, Seen, NodeTable, root}
use jackalopefs.Nodes.Numbers.{id_for}
use jackalopefs.Nodes.Ops.{insert_lookup, register}
use jackalopefs.Nodes.Kept.{IsTable}
use jackalopefs.Nodes.Held.{
  count_at, count-unlink, count-rename, count-exchange, count-root_seen, count-alias_was_wrong,
  count-register, count-forget,
}
use jackalopefs.Nodes.Steps.{Action, new, step, run, new-IsTable, step-IsTable, run-IsTable}

unfoldable pub answer_of : Option (NodeTable × Option ℕ) → Option ℕ
answer_of none = none
answer_of (some (t, answer)) = answer

unfoldable pub one_more : Option ℕ → (ℕ → ℕ) → ℕ → ℕ
one_more none held d = held d
one_more (some id) held d = if d == id then suc (held d) else held d

-- The lookups of each node that the kernel holds after an operation: one more of the node that a lookup
-- is answered with, and fewer by those that it drops.
unfoldable pub told : NodeTable → Action → (ℕ → ℕ) → ℕ → ℕ
unfolding answer_of one_more
told t (Action.looks_up parent name seen) held d =
    one_more (answer_of (insert_lookup t parent name seen)) held d
told t (Action.forgets id lookups) held d = if d == id then held d - lookups else held d
told t (Action.sees_root i) held d = held d
told t (Action.unlinks parent name) held d = held d
told t (Action.renames parent name newparent newname) held d = held d
told t (Action.exchanges parent name newparent newname) held d = held d
told t (Action.finds_wrong id path) held d = held d

-- The lookups that the kernel holds after a history.
unfoldable pub lookups_held : NodeTable → List Action → (ℕ → ℕ) → ℕ → ℕ
unfolding told
lookups_held t [] held d = held d
lookups_held t (a ∷ acts) held d = elim (step t a) [
  | none ↦ held d
  | some u ↦ lookups_held u acts (told t a held) d
]

module _ (d : ℕ) (ne : d ≢ root) where
  found_lookup :
      (t u : NodeTable) (parent found : ℕ) (name : Name) (s : Seen) (answer : Option ℕ)
      (held : ℕ → ℕ)
      → if◌then◌else◌ {A = Option (NodeTable × Option ℕ)}
          (found == root)
          (some (t, none))
          (some (register t parent name s found, some found))
        ≡ some (u, answer)
      → count_at t.nodes d ≡ held d
      → count_at u.nodes d ≡ one_more answer held d
  unfolding one_more
  found_lookup t u parent found name s answer held e c = elim (Bool-cases (found == root)) [
    | inl is_root ↦ ground arith
    | inr other ↦ ground (arith, count-register d t parent found name s)
  ]

  insert_lookup-told :
      (t u : NodeTable) (parent : ℕ) (name : Name) (s : Seen) (answer : Option ℕ) (held : ℕ → ℕ)
      → insert_lookup t parent name s ≡ some (u, answer)
      → count_at t.nodes d ≡ held d
      → count_at u.nodes d ≡ one_more answer held d
  unfolding insert_lookup
  insert_lookup-told t u parent name s answer held e c =
      let (found, number, rest) = >>=-eq-some (id_for t s) _ e in
      found_lookup t u parent found name s answer held rest c

  step-told :
      (t u : NodeTable) (a : Action) (held : ℕ → ℕ)
      → IsTable t
      → step t a ≡ some u
      → count_at t.nodes d ≡ held d
      → count_at u.nodes d ≡ told t a held d
  unfolding step told answer_of
  step-told t u (Action.looks_up parent name seen) held i e c =
      let ((m, answer), did, rest) = >>=-eq-some (insert_lookup t parent name seen) _ e in
      rw did (
        subst (λ (x : NodeTable). count_at x.nodes d ≡ one_more answer held d)
          (some-injective _ _ rest) (insert_lookup-told t m parent name seen answer held did c))
  step-told t u (Action.sees_root r) held i e c =
      subst (λ (x : NodeTable). count_at x.nodes d ≡ held d) (some-injective _ _ e)
        (count-root_seen d t r ∙ c)
  step-told t u (Action.forgets id lookups) held i e c =
      subst (λ (x : NodeTable). count_at x.nodes d ≡ (if d == id then held d - lookups else held d))
        (some-injective _ _ e) (ground (arith, count-forget d t id lookups i.base.ids))
  step-told t u (Action.unlinks parent name) held i e c =
      subst (λ (x : NodeTable). count_at x.nodes d ≡ held d) (some-injective _ _ e)
        (count-unlink d t parent name ∙ c)
  step-told t u (Action.renames parent name newparent newname) held i e c =
      subst (λ (x : NodeTable). count_at x.nodes d ≡ held d) (some-injective _ _ e)
        (count-rename d t parent newparent name newname ∙ c)
  step-told t u (Action.exchanges parent name newparent newname) held i e c =
      subst (λ (x : NodeTable). count_at x.nodes d ≡ held d) (some-injective _ _ e)
        (count-exchange d t parent newparent name newname ∙ c)
  step-told t u (Action.finds_wrong id path) held i e c =
      subst (λ (x : NodeTable). count_at x.nodes d ≡ held d) (some-injective _ _ e)
        (count-alias_was_wrong d t id path ∙ c)

  run-lookups_held :
      (t u : NodeTable) (acts : List Action) (held : ℕ → ℕ)
      → IsTable t
      → run t acts ≡ some u
      → count_at t.nodes d ≡ held d
      → count_at u.nodes d ≡ lookups_held t acts held d
  unfolding run lookups_held
  run-lookups_held t u [] held i e c =
      subst (λ (x : NodeTable). count_at x.nodes d ≡ held d) (some-injective _ _ e) c
  run-lookups_held t u (a ∷ acts) held i e c =
      let (m, did, rest) = >>=-eq-some (step t a) _ e in
      rw (did, lookups_held)
        (run-lookups_held m u acts (told t a held) (step-IsTable t m a did i) rest
          (step-told t m a held i did c))

  new-count : count_at new.nodes d ≡ 0
  unfolding count_at new
  new-count = ground (arith, ne)

  key_iff_counted :
      (t : NodeTable) → IsTable t → (is_key d t.nodes ≡ true) ↔ (0 < count_at t.nodes d)
  unfolding count_at
  key_iff_counted t i = elim (Option-cases (lookup d t.nodes)) [
    | inl e ↦ (λ h. ground arith, λ h. ground arith)
    | inr (n, e) ↦ (λ h. ground (arith, (i.base.node d n e).counted), λ h. ground arith)
  ]

-- The table stays sound through every history of its operations: `by_key` finds exactly the files of
-- the nodes, so that no two nodes but the root are of one file; what a directory names is in the table
-- and has that name among its aliases; a node but the root is of a known file, and is flagged as unlinked
-- exactly when it has no alias; and the root stays, with no alias. Of each node but the root it counts
-- exactly the lookups that the kernel holds: those that were answered with it, less those dropped; and
-- the node is in the table exactly while there is one.
pub run-IsHeld :
    (t : NodeTable) (acts : List Action)
    → run new acts ≡ some t
    → IsTable t
      × ((d : ℕ)
          → d ≢ root
          → (count_at t.nodes d ≡ lookups_held new acts (λ id. 0) d)
            × ((is_key d t.nodes ≡ true) ↔ (0 < lookups_held new acts (λ id. 0) d)))
run-IsHeld t acts e =
    let i = run-IsTable t acts e in
    (
      i,
      λ d ne.
          let c = run-lookups_held d ne new t acts (λ id. 0) new-IsTable e (new-count d ne) in
          (c, subst (λ (n : ℕ). (is_key d t.nodes ≡ true) ↔ (0 < n)) c (key_iff_counted d ne t i)),
    )
