-- ===== src/Watch/Counted/Moving.antt =====
-- crates/server/src/watch.rs: the directories that a batch of events has taken out of the table.
use jackalopefs.Common.{
  ℕ, ◌+◌, ◌≡◌, refl, Bool, true, false, not, ◌&&◌, ◌||◌, none, some, List, [], ◌∷◌, arith, ◌==◌,
  lookup, insert, erase,
}
use jackalopefs.Proto.Message.{FilePath}
use jackalopefs.Events.Origins.{intersects, in_moved_from}
use jackalopefs.Watch.Tree.{State, Node}
use jackalopefs.Watch.Table.{Table, drop_tree}
use jackalopefs.Watch.Apply.{RawEvent, Moving, drop_moving}
use jackalopefs.Watch.Weights.{is_watch, one_watch, weigh_node}
use jackalopefs.Watch.Counted.{IsExact, drop_tree-IsExact}

unfoldable pub weigh_moving : (State → ℕ) → Moving → ℕ
weigh_moving f [] = 0
weigh_moving f ((k, (path, n)) ∷ m) = weigh_node f n + weigh_moving f m

pub weigh_moving-insert :
    (f : State → ℕ) (k : ℕ) (path : FilePath) (n : Node) (m : Moving)
    → lookup k m ≡ none
    → weigh_moving f (insert k (path, n) m) ≡ weigh_node f n + weigh_moving f m
unfolding weigh_moving
weigh_moving-insert f k path n [] e = refl
weigh_moving-insert f k path n ((j, (p, d)) ∷ m) e =
    ground (arith, weigh_moving-insert f k path n m)

pub weigh_moving-erase :
    (f : State → ℕ) (k : ℕ) (path : FilePath) (n : Node) (m : Moving)
    → lookup k m ≡ some (path, n)
    → weigh_moving f (erase k m) + weigh_node f n ≡ weigh_moving f m
unfolding weigh_moving
weigh_moving-erase f k path n [] e = cc
weigh_moving-erase f k path n ((j, (p, d)) ∷ m) e = ground (arith, weigh_moving-erase f k path n m)

pub weigh_moving-erase-none :
    (f : State → ℕ) (k : ℕ) (m : Moving)
    → lookup k m ≡ none
    → weigh_moving f (erase k m) ≡ weigh_moving f m
unfolding weigh_moving
weigh_moving-erase-none f k [] e = refl
weigh_moving-erase-none f k ((j, (p, d)) ∷ m) e = ground (arith, weigh_moving-erase-none f k m)

pub lookup-erase-none : (k j : ℕ) (m : Moving) → lookup j m ≡ none → lookup j (erase k m) ≡ none
lookup-erase-none k j [] e = refl
lookup-erase-none k j ((i, v) ∷ m) e = ground (arith, lookup-erase-none k j m)

-- The table is counted but for what was taken out.
abbrev pub IsWith : Table → Moving → Type 0
IsWith t m = IsExact t (λ w. weigh_moving (is_watch w) m) (weigh_moving one_watch m)

pub drop_moving-IsExact :
    (m : Moving) (t : Table) → IsWith t m → IsExact (drop_moving m t) (λ w. 0) 0
unfolding drop_moving weigh_moving
drop_moving-IsExact [] t c = c
drop_moving-IsExact ((k, (path, n)) ∷ m) t c = drop_moving-IsExact m (drop_tree true n path t) (
    drop_tree-IsExact true n path t (λ w. weigh_moving (is_watch w) m) (weigh_moving one_watch m) c)

-- An event to come takes a directory out under this cookie.
unfoldable pub takes_cookie : ℕ → List RawEvent → Bool
takes_cookie k [] = false
takes_cookie k (e ∷ es) = (intersects e.mask in_moved_from && e.cookie == k) || takes_cookie k es

-- No two events of a batch take a directory out under one cookie.
unfoldable pub cookies_once : List RawEvent → Bool
unfolding takes_cookie
cookies_once [] = true
cookies_once (e ∷ es) =
    not (intersects e.mask in_moved_from && takes_cookie e.cookie es) && cookies_once es

abbrev pub IsUntaken : List RawEvent → Moving → Type 0
IsUntaken es m = (k : ℕ) → takes_cookie k es ≡ true → lookup k m ≡ none
