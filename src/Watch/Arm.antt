-- ===== src/Watch/Arm.antt =====
-- crates/server/src/watch.rs: what a request asks of the table, and the holds that it keeps.
use jackalopefs.Common.{
  ℕ, zero, suc, ◌-◌, true, false, Option, none, some, List, [], ◌∷◌, ◌++◌, ltb, if◌then◌else◌,
  get_elem?, set,
}
use jackalopefs.Proto.Message.{FilePath}
use jackalopefs.Watch.Tree.{State, Node, is_watched, find_child}
use jackalopefs.Watch.Table.{Answer, Stamp, Table}
use jackalopefs.Watch.Ops.{open_dir, open_child, install, verify}

-- `Mark::stamp`.
unfoldable pub stamp : ℕ → ℕ → List Stamp → List Stamp
stamp round m stamps = elim (get_elem? stamps m) [
  | none ↦ stamps
  | some s ↦ set stamps m (record s { used = round })
]

-- `Armed::hold`, by the mark's place.
unfoldable pub hold : ℕ → Table → Table
hold m t = elim (get_elem? t.stamps m) [
  | none ↦ t
  | some s ↦ record t { stamps = set t.stamps m (record s { holds = suc s.holds }) }
]

-- The drop of an `Armed`; its mark has a hold to take off.
unfoldable pub let_go : ℕ → Table → Table
let_go m t = elim (get_elem? t.stamps m) [
  | none ↦ t
  | some s ↦ record t { stamps = set t.stamps m (record s { holds = s.holds - 1 }) }
]

-- The deepest watched directory, held, if nothing more is to be watched and the table lives.
pub data Touched : Type 0 where
  done : (held : Option ℕ) → Touched
  missing : Touched

-- The loop of `Table::touch`.
unfoldable pub touch_from : ℕ → ℕ → FilePath → Node → List Stamp → List Stamp × Touched
unfolding find_child stamp
touch_from round now [] n stamps = (stamps, done (some n.mark))
touch_from round now (name ∷ names) n stamps = elim (find_child name n.children) [
  | none ↦ (stamps, missing)
  | some c ↦ elim c.state [
    | State.watched wd ↦ touch_from round now names c (stamp round c.mark stamps)
    | State.unwatchable at ↦ (stamps, if ltb now at then done (some n.mark) else missing)
  ]
]

-- `Table::touch`.
unfoldable pub touch : FilePath → ℕ → Table → Table × Touched
unfolding touch_from hold
touch dir now t =
    if t.dead
    then (t, done none)
    else (let (stamps, found) = touch_from t.round now dir t.root t.stamps in
        let u = record t { stamps = stamps } in
        elim found [
          | missing ↦ (u, missing)
          | done none ↦ (u, done none)
          | done (some m) ↦ (hold m u, done (some m))
        ])

-- `Table::deepest_watched`, with how deep it is.
unfoldable pub deepest_watched : Node → FilePath → Node × ℕ
unfolding find_child is_watched
deepest_watched n [] = (n, 0)
deepest_watched n (name ∷ names) = elim (find_child name n.children) [
  | none ↦ (n, 0)
  | some c ↦ elim c.state [
    | State.unwatchable at ↦ (n, 0)
    | State.watched wd ↦ let (d, depth) = deepest_watched c names in (d, suc depth)
  ]
]

unfoldable pub take_names : ℕ → FilePath → FilePath
take_names zero names = []
take_names (suc n) [] = []
take_names (suc n) (x ∷ names) = x ∷ take_names n names

unfoldable pub skip_names : ℕ → FilePath → FilePath
skip_names zero names = names
skip_names (suc n) [] = []
skip_names (suc n) (x ∷ names) = skip_names n names

-- The loop of `Table::extend`.
unfoldable pub extend_from : FilePath → ℕ → FilePath → ℕ → Table → Table
unfolding open_child install
extend_from path dir [] now t = t
extend_from path dir (name ∷ names) now t =
    let here = path ++ name ∷ [] in
    let (u, opened) = open_child t dir name in
    elim opened [
      | Answer.err e ↦ u
      | Answer.ok c ↦
          let (v, installed) = install here c now u in
          elim installed [ false ↦ v | true ↦ extend_from here c names now v ]
    ]

-- `Table::extend`.
unfoldable pub extend : FilePath → ℕ → ℕ → Table → Table
unfolding take_names skip_names open_dir verify extend_from
extend names depth now t =
    let prefix = take_names depth names in
    let (u, opened) = open_dir t prefix in
    elim opened [
      | Answer.err e ↦ u
      | Answer.ok dir ↦
          let (v, verified) = (if ltb 0 depth then verify prefix dir now u else (u, true)) in
          elim verified [ false ↦ v | true ↦ extend_from prefix dir (skip_names depth names) now v ]
    ]

-- `Table::arm`; its answer is the mark held.
unfoldable pub arm : FilePath → ℕ → Table → Table × Option ℕ
unfolding touch deepest_watched extend hold
arm dir now t =
    let (u, found) = touch dir now t in
    elim found [
      | done held ↦ (u, held)
      | missing ↦
          let v = extend dir (deepest_watched u.root dir).1 now u in
          let m = (deepest_watched v.root dir).0.mark in (hold m v, some m)
    ]
