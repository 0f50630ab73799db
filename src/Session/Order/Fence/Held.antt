-- ===== src/Session/Order/Fence/Held.antt =====
-- crates/server/src/session.rs: a change that its client gave up on while it ran holds the changes that
-- come after, until it ends.
use jackalopefs.Common.{
  ℕ, ◌≡◌, refl, sym, subst, ◌∙◌, ◌⊎◌, inl, inr, Bool-cases, true, some, some-injective, List, [],
  ◌∷◌, arith, ◌==◌, ==_iff, get_elem?, set, get_elem?-set_self, get_elem?-set_ne, get_elem?-append,
  get_elem?-append_last, length, All-get_elem?, >>=-eq-some,
}
use jackalopefs.Session.State.{SessionState, is_abandoned, fencing, fence, new_exchange}
use jackalopefs.Session.Steps.{System, Entry, Action, created, moved, step, run}
use jackalopefs.Session.Steps.Cases.{
  Op, Change, request, decodes, resumes, comes_or_goes, step_cases, decoded_entry, decode_inv,
}
use jackalopefs.Session.Counts.{IsRequest, IsCounted, given_up}
use jackalopefs.Session.Counts.Kept.{Change-IsCounted, created-IsCounted, run-IsCounted}
use jackalopefs.Session.Order.Fence.{
  behind, over, fences, given_up-fences, Op-given_up, Op-over, Op-behind,
}

-- Where `f` stood before a move of the request at `k` from `e` to `e'`, what stands there after.
moved_at :
    (t : System) (k j : ℕ) (e e' f : Entry) (s : SessionState)
    → get_elem? t.entries k ≡ some e
    → get_elem? t.entries j ≡ some f
    → (f' : Entry) × (get_elem? (moved t k s e').entries j ≡ some f')
      × (((f ≡ e) × (f' ≡ e')) ⊎ (f' ≡ f))
unfolding moved
moved_at t k j e e' f s atk atj = elim (Bool-cases (k == j)) [
  | inl same ↦
      let k≡j = (==_iff k j).0 same in
      (
        e',
        subst (λ n. get_elem? (set t.entries k e') n ≡ some e') k≡j
            (get_elem?-set_self t.entries k e e' atk),
        inl (
          some-injective _ _ (sym atj ∙ subst (λ n. get_elem? t.entries n ≡ some e) k≡j atk),
          refl,
        ),
      )
  | inr other ↦ (f, get_elem?-set_ne t.entries k j e' (λ p. ground arith) ∙ atj, inr refl)
]

-- The change at `i` was given up on; it is over, or it still runs and the one at `j` is behind it.
record Follows (i j : ℕ) (t : System) : Type 0 where
  first : Entry
  second : Entry
  first_at : get_elem? t.entries i ≡ some first
  second_at : get_elem? t.entries j ≡ some second
  state : (over first ≡ true) ⊎ ((given_up first ≡ true) × (behind second ≡ true))

-- What the move carries over.
carried :
    (P Q : Entry → Type 0) {e e' f f' : Entry}
    → ((f ≡ e) × (f' ≡ e')) ⊎ (f' ≡ f)
    → (P e → Q e')
    → (P f → Q f)
    → P f
    → Q f'
carried P Q (inl (p, q)) moves stays h = subst Q (sym q) (moves (subst P p h))
carried P Q (inr q) moves stays h = subst Q (sym q) (stays h)

abbrev Ends : Entry → Type 0
Ends e = (given_up e ≡ true) ⊎ (over e ≡ true)

request-Follows :
    (t : System) (i j k : ℕ) (e e' : Entry) (s : SessionState)
    → get_elem? t.entries k ≡ some e
    → Op t.session e s e'
    → IsCounted t
    → Follows i j t
    → Follows i j (moved t k s e')
request-Follows t i j k e e' s at op c w =
    let (e1, at1, case1) = moved_at t k i e e' w.first s at w.first_at in
    let (f1, at2, case2) = moved_at t k j e e' w.second s at w.second_at in
    let q = All-get_elem? (IsRequest t.session.attachment.epoch) t.entries k at c.requests in
    record {
      first = e1;
      second = f1;
      first_at = at1;
      second_at = at2;
      state = elim w.state [
        | inl o ↦ inl (
            carried (λ x. over x ≡ true) (λ x. over x ≡ true) case1 (Op-over t.session e s e' q op)
              (λ h. h) o)
        | inr (g, b) ↦
            elim (carried (λ x. given_up x ≡ true) Ends case1
              (λ h. Op-given_up t.session e s e' q op (inl h)) inl g) [
                | inr o ↦ inl o
                | inl g' ↦ inr (
                  g',
                  carried (λ x. behind x ≡ true) (λ x. behind x ≡ true) case2
                      (Op-behind t.session e s e' q op (given_up-fences t i w.first c w.first_at g))
                      (λ h. h) b,
                )
              ]
      ];
    }

Change-Follows : (t u : System) (i j : ℕ) → Change t u → IsCounted t → Follows i j t → Follows i j u
Change-Follows t u i j (request k e e' s at op eq) c w =
    subst (Follows i j) eq (request-Follows t i j k e e' s at op c w)
Change-Follows t u i j (decodes epoch n ordered more le eq) c w = subst (Follows i j) eq (record {
  first = w.first;
  second = w.second;
  first_at = get_elem?-append t.entries _ i w.first_at;
  second_at = get_elem?-append t.entries _ j w.second_at;
  state = w.state;
})
Change-Follows t u i j (resumes eq) c w = subst (Follows i j) eq (record {
  first = w.first;
  second = w.second;
  first_at = w.first_at;
  second_at = w.second_at;
  state = w.state;
})
Change-Follows t u i j (comes_or_goes s n m same h eq) c w = subst (Follows i j) eq (record {
  first = w.first;
  second = w.second;
  first_at = w.first_at;
  second_at = w.second_at;
  state = w.state;
})

run-Follows :
    (t u : System) (i j : ℕ) (acts : List Action)
    → run t acts ≡ some u
    → IsCounted t
    → Follows i j t
    → Follows i j u
unfolding run
run-Follows t u i j [] h c w = subst (Follows i j) (some-injective _ _ h) w
run-Follows t u i j (a ∷ acts) h c w =
    let (m, did, h') = >>=-eq-some (step t a) _ h in
    let change = step_cases t m a did in
    run-Follows m u i j acts h' (Change-IsCounted t m change c) (Change-Follows t m i j change c w)

-- A change decoded on the current connection while another, given up on, still runs is held.
decoded_behind :
    (t m : System) (i : ℕ) (e : Entry)
    → IsCounted t
    → get_elem? t.entries i ≡ some e
    → given_up e ≡ true
    → step t (Action.decodes t.session.attachment.epoch true) ≡ some m
    → Follows i (length t.entries) m
unfolding step fencing fence new_exchange fences
decoded_behind t m i e c at g h =
    let new = decoded_entry t.session t.session.attachment.epoch true in
    let (n, more, le, eq) = decode_inv t m t.session.attachment.epoch true h in
    subst (Follows i (length t.entries)) eq (record {
      first = e;
      second = new;
      first_at = get_elem?-append t.entries _ i at;
      second_at = get_elem?-append_last t.entries new;
      state = inr (g, ground (arith, given_up-fences t i e c at g));
    })

Follows-behind :
    (u : System) (i j : ℕ) (e : Entry)
    → get_elem? u.entries i ≡ some e
    → given_up e ≡ true
    → Follows i j u
    → (f : Entry) × (get_elem? u.entries j ≡ some f) × (behind f ≡ true)
unfolding is_abandoned
Follows-behind u i j e at g w =
    let same : e ≡ w.first = some-injective _ _ (sym at ∙ w.first_at) in
    let g' : given_up w.first ≡ true = subst (λ x. given_up x ≡ true) same g in
    (w.second, w.second_at, ground (arith, w.state))

-- Take a session in a state that it reached, where a change runs that its client has given up on, and
-- a change then decoded on the current connection. In every later state in which the first has not
-- ended, the second is held or has ended without running: it has not begun.
pub run-given_up_holds :
    (id token : ℕ) (before after : List Action) (t m u : System) (i : ℕ) (e e' : Entry)
    → run (created id token) before ≡ some t
    → get_elem? t.entries i ≡ some e
    → given_up e ≡ true
    → step t (Action.decodes t.session.attachment.epoch true) ≡ some m
    → run m after ≡ some u
    → get_elem? u.entries i ≡ some e'
    → given_up e' ≡ true
    → (f : Entry) × (get_elem? u.entries (length t.entries) ≡ some f) × (behind f ≡ true)
run-given_up_holds id token before after t m u i e e' h at g d h' at' g' =
    let c = run-IsCounted (created id token) t before h (created-IsCounted id token) in
    let w = decoded_behind t m i e c at g d in
    let c' =
      Change-IsCounted t m (step_cases t m (Action.decodes t.session.attachment.epoch true) d) c in
    Follows-behind u i (length t.entries) e' at' g'
      (run-Follows m u i (length t.entries) after h' c' w)
