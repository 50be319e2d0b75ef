-- ===== src/Httpapi/Proxy/Ends.antt =====
-- The loop of a request ends.
use antigravity2api.Base.{
  ℕ, suc, ◌+◌, ◌*◌, ◌≤◌, ◌<◌, ◌≡◌, refl, List, [], ◌∷◌, none, some, length, All, Option-cases, inl,
  inr, arith,
}
use antigravity2api.Httpapi.Proxy.{
  Answers, Plan, Held, Loop, Turn, again, breaks, served, Reply, let_go, limit_account,
  after_stream, succeed, attempt, acquire, turn, close_loop, proxy, start_loop, tell, sends,
  Acquired, granted, refused, answer, error_reply,
}
use antigravity2api.Httpapi.Proxy.Budget.{
  KeepsId, credit, Work, Rested, Head, Spent, Work-bound, fail-Spent,
}

close-total : (s : Loop) → (close_loop s).total ≡ s.total
unfolding close_loop let_go
close-total s = ground arith

module _ (max_attempts : ℕ) where
  attempt-Spent :
      (plan : Plan) (a : Answers) (h : Held) (s : Loop)
      → KeepsId a
      → s.reuse ≡ none
      → Work max_attempts h.account.id s
      → suc s.total ≤ credit s
      → Spent max_attempts (suc s.total) (attempt max_attempts plan a h s)
  unfolding attempt succeed let_go after_stream limit_account
  attempt-Spent plan a h s keeps r w more =
      let counted = record s { total = s.total + 1 } in
      let w' : Work max_attempts h.account.id counted =
        ground (arith, w.bounded, more, w.grace, w.refresh) in
      let sent = tell (sends h.account.id) counted in
      ground (
        arith,
        Work-bound max_attempts h.account.id s w,
        Work-bound max_attempts h.account.id counted w',
        fail-Spent max_attempts plan a h sent keeps r (record {
          bounded = w'.bounded;
          paid = w'.paid;
          grace = w'.grace;
          refresh = w'.refresh;
        }),
      )

  Rested-bound : (s : Loop) → Rested max_attempts s → s.total ≤ 3 * max_attempts + 1
  Rested-bound s k = ground arith

  acquire-Spent :
      (plan : Plan) (a : Answers) (s : Loop)
      → KeepsId a
      → s.reuse ≡ none
      → Rested max_attempts s
      → s.attempts < max_attempts
      → Spent max_attempts (suc s.total) (acquire max_attempts plan a s)
  unfolding acquire
  acquire-Spent plan a s keeps r k more = go a.acquired refl
    where
      go :
          (g : Acquired)
          → a.acquired ≡ g
          → Spent max_attempts (suc s.total) (acquire max_attempts plan a s)
      go (granted acc) e =
          rw (e, acquire)
            (attempt-Spent plan a _ _ keeps r
              (record {
                bounded = omega arith;
                paid = omega arith;
                grace = ground arith;
                refresh = ground arith;
              })
              (omega arith))
      go (refused (some f) after) e = rw (e, acquire) (Rested-bound s k)
      go (refused none after) e = rw (e, acquire) (Rested-bound s k)

  turn-Spent :
      (plan : Plan) (a : Answers) (s : Loop)
      → KeepsId a
      → Head max_attempts s
      → Spent max_attempts (suc s.total) (turn max_attempts plan a s)
  unfolding turn
  turn-Spent plan a s keeps k = elim (Option-cases s.reuse) [
    | inl e ↦ ground (arith, Rested-bound s, acquire-Spent plan a s keeps e)
    | inr (h, e) ↦ ground (
      arith,
      Work-bound max_attempts h.account.id s,
      attempt-Spent plan a h (record s { reuse = none }) keeps refl,
    )
  ]

  Head-bound : (s : Loop) → Head max_attempts s → s.total ≤ 3 * max_attempts + 1
  Head-bound s k = elim (Option-cases s.reuse) [
    | inl e ↦ ground (arith, Rested-bound s)
    | inr (h, e) ↦ ground (arith, Work-bound max_attempts h.account.id s)
  ]

  -- With more answers than attempts are left, the loop ends, within its budget.
  pub proxy-Spent :
      (plan : Plan) (answers : List Answers) (s : Loop)
      → All KeepsId answers
      → Head max_attempts s
      → 3 * max_attempts + 1 < s.total + length answers
      → (t : Loop) × (r : Reply) × (proxy max_attempts plan answers s ≡ some (t, r))
        × (t.total ≤ 3 * max_attempts + 1)
  unfolding proxy
  proxy-Spent plan [] s keeps k room = absurd (omega (arith, Head-bound s k, room))
  proxy-Spent plan (a ∷ answers) s keeps k room =
      go (turn max_attempts plan a s) refl (turn-Spent plan a s keeps.0 k)
        (λ v. proxy-Spent plan answers v keeps.1)
    where
      go :
          (u : Turn)
          → turn max_attempts plan a s ≡ u
          → Spent max_attempts (suc s.total) u
          → ((v : Loop)
              → Head max_attempts v
              → 3 * max_attempts + 1 < v.total + length answers
              → (t : Loop) × (r : Reply) × (proxy max_attempts plan answers v ≡ some (t, r))
                × (t.total ≤ 3 * max_attempts + 1))
          → (t : Loop) × (r : Reply) × (proxy max_attempts plan (a ∷ answers) s ≡ some (t, r))
            × (t.total ≤ 3 * max_attempts + 1)
      go (again v) q spent ih =
          let (t, r, e, n) = ih v spent.0 (omega (arith, spent.1, room)) in
          (t, r, rw (q, proxy) e, n)
      go (breaks v) q spent ih =
          (close_loop v, error_reply v, rw (q, proxy), omega (arith, spent, close-total v))
      go (served v) q spent ih = (v, answer, rw (q, proxy), spent)

-- A request is sent upstream, or gives up on the way there, in at most 3 * max_attempts + 1 turns:
-- with answers for one turn more the loop has ended, served or not, and has counted no more
-- attempts. The token refresh is taken to give the account that it is asked for.
pub proxy_total :
    (max_attempts : ℕ) (plan : Plan) (answers : List Answers)
    → All KeepsId answers
    → 3 * max_attempts + 1 < length answers
    → (t : Loop) × (r : Reply) × (proxy max_attempts plan answers start_loop ≡ some (t, r))
      × (t.total ≤ 3 * max_attempts + 1)
unfolding start_loop
proxy_total max_attempts plan answers keeps room =
    proxy-Spent max_attempts plan answers start_loop keeps
      (omega arith, omega arith, omega arith, omega arith) (omega arith)
