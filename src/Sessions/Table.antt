-- ===== src/Sessions/Table.antt =====
-- crates/server/src/session.rs: `Sessions`, with what each method does. A session's id is never given
-- twice, so its state stands in a store under its id while something holds it: the table holds the
-- sessions of `map`, and `Weak::upgrade` finds a session that is in the store. A hash map is the list of
-- its keys, and its order is that of the list.
use jackalopefs.Common.{
  ℕ, zero, suc, ◌+◌, ◌-◌, Bool, true, false, not, Option, none, some, List, [], ◌∷◌, ◌==◌, leb,
  if◌then◌else◌, ◌>>=◌, length, filter_if, lookup, insert, alter, is_key,
}
use jackalopefs.Session.State.{SessionState, hold, reattach, detach_at}

pub record Sessions : Type 0 where
  pub heap : List (ℕ × SessionState)
  pub map : List ℕ
  pub dropped : List ℕ
  pub next_id : ℕ

abbrev pub max_detached_sessions : ℕ
max_detached_sessions = 64

unfoldable pub has : ℕ → List ℕ → Bool
has id [] = false
has id (j ∷ ids) = if id == j then true else has id ids

unfoldable pub without_id : ℕ → List ℕ → List ℕ
without_id id ids = filter_if (λ j. not (j == id)) ids

unfoldable pub insert_id : ℕ → List ℕ → List ℕ
unfolding without_id
insert_id id ids = id ∷ without_id id ids

-- `Sessions::retire`.
unfoldable pub retire : Sessions → ℕ → Sessions
unfolding has without_id insert_id
retire t id =
    if has id t.map
    then record t {
      map = without_id id t.map;
      dropped = insert_id id (filter_if (λ j. is_key j t.heap) t.dropped);
    }
    else t

unfoldable pub retire_all : Sessions → List ℕ → Sessions
unfolding retire
retire_all t [] = t
retire_all t (id ∷ ids) = retire_all (retire t id) ids

unfoldable pub detached_at : List (ℕ × SessionState) → ℕ → Option ℕ
detached_at heap id = do s ← lookup id heap; s.attachment.detached_at

-- The sessions detached, with when they were.
unfoldable pub detached_in : List (ℕ × SessionState) → List ℕ → List (ℕ × ℕ)
unfolding detached_at
detached_in heap [] = []
detached_in heap (id ∷ ids) =
    let rest = detached_in heap ids in
    elim (detached_at heap id) [ none ↦ rest | some at ↦ (id, at) ∷ rest ]

-- `sort_by_key`, which is stable.
unfoldable pub insert_by_at : ℕ × ℕ → List (ℕ × ℕ) → List (ℕ × ℕ)
insert_by_at (id, at) [] = (id, at) ∷ []
insert_by_at (id, at) ((j, b) ∷ es) =
    if leb at b then (id, at) ∷ (j, b) ∷ es else (j, b) ∷ insert_by_at (id, at) es

unfoldable pub sort_by_at : List (ℕ × ℕ) → List (ℕ × ℕ)
unfolding insert_by_at
sort_by_at [] = []
sort_by_at (e ∷ es) = insert_by_at e (sort_by_at es)

unfoldable pub take_ids : ℕ → List (ℕ × ℕ) → List ℕ
take_ids zero es = []
take_ids (suc n) [] = []
take_ids (suc n) ((id, at) ∷ es) = id ∷ take_ids n es

-- The sessions that `create` retires.
unfoldable pub surplus : Sessions → List ℕ
unfolding detached_in sort_by_at take_ids
surplus t =
    let detached = detached_in t.heap t.map in
    if leb max_detached_sessions (length detached)
    then take_ids (length detached + 1 - max_detached_sessions) (sort_by_at detached)
    else []

-- What `create` makes; the token is random.
unfoldable pub new_session : ℕ → ℕ → SessionState
new_session id token = record {
  id = id;
  resume_token = token;
  attachment = record {
    epoch = 1;
    detached_at = none;
    remote = none;
    running = 0;
    abandoned = 0;
    running_older = 0;
  };
  holders = 0;
}

-- `Sessions::create`.
unfoldable pub create : Sessions → ℕ → Sessions × ℕ
unfolding surplus retire_all insert_id new_session
create t token =
    let id = suc t.next_id in
    let u = retire_all t (surplus t) in
    (
      record u {
        next_id = id;
        heap = insert id (new_session id token) u.heap;
        map = insert_id id u.map;
      },
      id,
    )

-- The session that `resume` finds, and whether it was dropped.
unfoldable pub find : Sessions → ℕ → Option (SessionState × Bool)
unfolding has
find t id =
    if has id t.map
    then (do s ← lookup id t.heap; some (s, false))
    else if has id t.dropped
    then (do s ← lookup id t.heap; if s.holders == 0 then none else some (s, true))
    else none

-- `Sessions::resume`; its answer is the new epoch.
unfoldable pub resume : Sessions → ℕ → ℕ → Option (Sessions × ℕ)
unfolding find without_id insert_id reattach
resume t id token = do
  (s, dropped) ← find t id
  if not (s.resume_token == token)
      then none
      else some (
        record t {
          heap = alter id reattach t.heap;
          map = if dropped then insert_id id t.map else t.map;
          dropped = if dropped then without_id id t.dropped else t.dropped;
        },
        suc s.attachment.epoch,
      )

-- `Sessions::forget`.
unfoldable pub forget : Sessions → ℕ → Sessions
unfolding without_id
forget t id = record t { map = without_id id t.map }

-- `Sessions::attach`, which is done to a session that something holds.
unfoldable pub attach : Sessions → ℕ → Sessions
unfolding hold
attach t id = record t { heap = alter id hold t.heap }

-- `Sessions::detach`.
unfoldable pub detach : ℕ → Sessions → ℕ → ℕ → Sessions
unfolding has detach_at
detach now t id epoch =
    if has id t.map then record t { heap = alter id (detach_at now epoch) t.heap } else t

-- The sessions that `reap` finds.
unfoldable pub expired_in : ℕ → ℕ → List (ℕ × ℕ) → List ℕ
expired_in now grace [] = []
expired_in now grace ((id, at) ∷ es) =
    let rest = expired_in now grace es in if leb grace (now - at) then id ∷ rest else rest

-- `Sessions::reap`.
unfoldable pub reap : ℕ → Sessions → ℕ → Sessions × ℕ
unfolding detached_in expired_in retire_all
reap now t grace =
    let expired = expired_in now grace (detached_in t.heap t.map) in
    (retire_all t expired, length expired)
