-- ===== src/Httpapi/Proxy/Slots.antt =====
-- The slots that a request holds while it retries.
use antigravity2api.Base.{
  ℕ, ◌+◌, ◌-◌, ◌≡◌, refl, ◌∙◌, ap, ◌&&◌, List, [], ◌∷◌, none, some, Text, nat_beq, Option-cases,
  inl, inr, arith, if◌then◌else◌,
}
use antigravity2api.Httpapi.Retry.{Body, retry_policy, RetryDecision}
use antigravity2api.Httpapi.Proxy.{
  Answers, Plan, Held, Loop, Turn, again, breaks, served, Reply, remove, let_go, limit_account,
  after_stream, succeed, rotate, retry_or_rotate, punish, refresh_or_punish, recover, fail, attempt,
  acquire, turn, close_loop, proxy, tell, waits, sends, forbids, invalidates_token, mapped_model,
  tells_forbidden, status_of, body_of, with_status, Acquired, granted, refused, answer, error_reply,
}

-- Between two turns the request holds the slot that it will use again, and no other.
abbrev pub HoldsReuse : Loop → Type 0
HoldsReuse s = elim s.reuse [ none ↦ s.open_leases ≡ [] | some h ↦ s.open_leases ≡ h.lease ∷ [] ]

-- While it works with an account it holds that account's slot, and has none to use again.
abbrev Holds : Held → Loop → Type 0
Holds h s = (s.reuse ≡ none) × (s.open_leases ≡ h.lease ∷ [])

abbrev Kept : Turn → Type 0
Kept (again s) = HoldsReuse s
Kept (breaks s) = HoldsReuse s
Kept (served s) = s.open_leases ≡ []

remove_own : (n : ℕ) → remove n (n ∷ []) ≡ []
unfolding remove
remove_own n = ground arith

let_go-empty :
    (h : Held) (s : Loop)
    → Holds h s
    → ((let_go h.lease s).reuse ≡ none) × ((let_go h.lease s).open_leases ≡ [])
unfolding let_go
let_go-empty h s k = ground (arith, remove_own h.lease)

rotate-Kept :
    (max_attempts : ℕ) (a : Answers) (delay : ℕ) (h : Held) (s : Loop)
    → Holds h s
    → Kept (rotate max_attempts a delay h s)
unfolding rotate
rotate-Kept max_attempts a delay h s k =
    ground (arith, let_go-empty h (record s { exclude = h.account.id ∷ s.exclude }) k)

retry_or_rotate-Kept :
    (max_attempts : ℕ) (a : Answers) (d : RetryDecision) (h : Held) (s : Loop)
    → Holds h s
    → Kept (retry_or_rotate max_attempts a d h s)
unfolding retry_or_rotate
retry_or_rotate-Kept max_attempts a d h s k =
    let waited = tell (waits d.delay) (record s { grace_used = h.account.id ∷ s.grace_used }) in
    ground
      (arith, let_go-empty h s k, let_go-empty h waited k, rotate-Kept max_attempts a d.delay h s k)

limit_account-keeps :
    (now : ℕ) (id mapped : Text) (d : RetryDecision) (s : Loop)
    → ((limit_account now id mapped d s).reuse ≡ s.reuse)
      × ((limit_account now id mapped d s).open_leases ≡ s.open_leases)
unfolding limit_account
limit_account-keeps now id mapped d s = ground arith

punish-Kept :
    (max_attempts : ℕ) (plan : Plan) (a : Answers) (d : RetryDecision) (h : Held) (s : Loop)
    → Holds h s
    → Kept (punish max_attempts plan a d h s)
unfolding punish
punish-Kept max_attempts plan a d h s k =
    let keeps = limit_account-keeps a.now h.account.id (mapped_model plan h.account) d s in
    retry_or_rotate-Kept max_attempts a d h _ (keeps.0 ∙ k.0, keeps.1 ∙ k.1)

refresh_or_punish-Kept :
    (max_attempts : ℕ) (plan : Plan) (a : Answers) (status : ℕ) (d : RetryDecision) (h : Held)
    (s : Loop)
    → Holds h s
    → Kept (refresh_or_punish max_attempts plan a status d h s)
unfolding refresh_or_punish
refresh_or_punish-Kept max_attempts plan a status d h s k =
    let tried =
      tell (invalidates_token h.account.id) (record s { refreshed = h.account.id ∷ s.refreshed }) in
    ground
      (arith, punish-Kept max_attempts plan a d h s k, punish-Kept max_attempts plan a d h tried k)

recover-Kept :
    (max_attempts : ℕ) (plan : Plan) (a : Answers) (status : ℕ) (b : Body) (d : RetryDecision)
    (h : Held) (s : Loop)
    → Holds h s
    → Kept (recover max_attempts plan a status b d h s)
unfolding recover
recover-Kept max_attempts plan a status b d h s k =
    let told =
      if nat_beq status 403 && tells_forbidden b then tell (forbids h.account.id) s else s in
    ground (
      arith,
      refresh_or_punish-Kept max_attempts plan a status d h
          (record told { retry_after = d.cooldown }),
    )

fail-Kept :
    (max_attempts : ℕ) (plan : Plan) (a : Answers) (h : Held) (s : Loop)
    → Holds h s
    → Kept (fail max_attempts plan a h s)
unfolding fail
fail-Kept max_attempts plan a h s k =
    let status = status_of a.outcome in
    let b = body_of a.outcome in
    ground (
      arith,
      let_go-empty h s k,
      recover-Kept max_attempts plan a status b
          (retry_policy status a.hint b (s.attempts - 1) a.jitter) h (with_status status s) k,
    )

after_stream-keeps :
    (a : Answers) (id mapped : Text) (attempts : ℕ) (s : Loop)
    → (after_stream a id mapped attempts s).open_leases ≡ s.open_leases
unfolding after_stream limit_account
after_stream-keeps a id mapped attempts s = ground arith

attempt-Kept :
    (max_attempts : ℕ) (plan : Plan) (a : Answers) (h : Held) (s : Loop)
    → Holds h s
    → Kept (attempt max_attempts plan a h s)
unfolding attempt succeed
attempt-Kept max_attempts plan a h s k =
    let counted = record s { total = s.total + 1 } in
    let sent = tell (sends h.account.id) counted in
    ground (
      arith,
      let_go-empty h s k,
      let_go-empty h counted k,
      let_go-empty h sent k,
      after_stream-keeps a h.account.id (mapped_model plan h.account) sent.attempts
          (let_go h.lease sent),
      fail-Kept max_attempts plan a h sent k,
    )

acquire-Kept :
    (max_attempts : ℕ) (plan : Plan) (a : Answers) (s : Loop)
    → s.reuse ≡ none
    → s.open_leases ≡ []
    → Kept (acquire max_attempts plan a s)
unfolding acquire
acquire-Kept max_attempts plan a s r o = go a.acquired refl
  where
    go : (g : Acquired) → a.acquired ≡ g → Kept (acquire max_attempts plan a s)
    go (granted acc) e =
        rw (e, acquire)
          (attempt-Kept max_attempts plan a _ _ (r, ap (λ (ms : List ℕ). s.leases ∷ ms) o))
    go (refused (some f) after) e = rw (e, acquire) (ground arith)
    go (refused none after) e = rw (e, acquire) (ground arith)

turn-Kept :
    (max_attempts : ℕ) (plan : Plan) (a : Answers) (s : Loop)
    → HoldsReuse s
    → Kept (turn max_attempts plan a s)
unfolding turn
turn-Kept max_attempts plan a s k = elim (Option-cases s.reuse) [
  | inl e ↦ ground (arith, acquire-Kept max_attempts plan a s)
  | inr (h, e) ↦ ground (arith, attempt-Kept max_attempts plan a h (record s { reuse = none }))
]

close-empty : (s : Loop) → HoldsReuse s → (close_loop s).open_leases ≡ []
unfolding close_loop let_go
close-empty s k = elim (Option-cases s.reuse) [
  | inl e ↦ ground arith
  | inr (h, e) ↦ ground (arith, remove_own h.lease)
]

-- Whatever the pool, the upstream and the clients answer, a request that is done, served or not,
-- has given back every slot that Acquire gave it.
pub proxy-releases :
    (max_attempts : ℕ) (plan : Plan) (answers : List Answers) (s : Loop) (t : Loop) (r : Reply)
    → HoldsReuse s
    → proxy max_attempts plan answers s ≡ some (t, r)
    → t.open_leases ≡ []
unfolding proxy
proxy-releases max_attempts plan [] s t r k e = absurd (cc)
proxy-releases max_attempts plan (a ∷ answers) s t r k e =
    go (turn max_attempts plan a s) refl (turn-Kept max_attempts plan a s k)
      (proxy-releases max_attempts plan answers)
  where
    go :
        (u : Turn)
        → turn max_attempts plan a s ≡ u
        → Kept u
        → ((v : Loop) (t : Loop) (r : Reply)
            → HoldsReuse v
            → proxy max_attempts plan answers v ≡ some (t, r)
            → t.open_leases ≡ [])
        → t.open_leases ≡ []
    go (again v) q kept ih = ih v t r kept (rw (q, proxy) at e)
    go (breaks v) q kept ih =
        let done : some (close_loop v, error_reply v) ≡ some (t, r) = rw (q, proxy) at e in
        ground (arith, done, close-empty v kept)
    go (served v) q kept ih =
        let done : some (v, answer) ≡ some (t, r) = rw (q, proxy) at e in ground (arith, done)
