-- ===== src/Httpapi/Proxy/Budget.antt =====
-- How often a request is sent upstream, and that its loop ends.
use antigravity2api.Base.{
  ℕ, suc, ◌+◌, ◌-◌, ◌*◌, ◌≤◌, ◌≡◌, subst, ◌&&◌, Bool, true, false, List, ◌∷◌, none, some, Text,
  text_beq_iff, nat_beq, length, Option-cases, Bool-cases, inl, inr, arith, if◌then◌else◌,
}
use antigravity2api.Accounts.{Account}
use antigravity2api.Convert.Catalog.{contains}
use antigravity2api.Httpapi.Retry.{Body, retry_policy, RetryDecision}
use antigravity2api.Httpapi.Proxy.{
  Answers, Plan, Held, Loop, Turn, again, breaks, served, let_go, limit_account, rotate,
  retry_or_rotate, punish, refresh_or_punish, recover, fail, tell, forbids, invalidates_token,
  mapped_model, tells_forbidden, status_of, body_of, with_status,
}

-- RefreshTokenContext gives the account that it was asked for.
abbrev pub KeepsId : Answers → Type 0
KeepsId a = (x y : Account) → a.fresh x ≡ some y → y.id ≡ x.id

-- 1 while the list may still take the account.
abbrev pub absent : Text → List Text → ℕ
absent id ids = if contains ids id then 0 else 1

abbrev pub one_if : Bool → ℕ
one_if true = 1
one_if false = 0

-- What the attempts, the grace retries, the token refreshes and the penalties allow.
abbrev pub credit : Loop → ℕ
credit s = s.attempts + (length s.grace_used + (length s.refreshed + one_if s.omit_penalties))

contains_self : (id : Text) (ids : List Text) → contains (id ∷ ids) id ≡ true
unfolding contains
contains_self id ids = ground (arith, text_beq_iff id id)

module _ (max_attempts : ℕ) where
  -- Each acquired account is given one grace retry and one token refresh at most.
  pub record Work (id : Text) (s : Loop) : Type 0 where
    pub bounded : s.attempts ≤ max_attempts
    pub paid : s.total ≤ credit s
    pub grace : length s.grace_used + absent id s.grace_used ≤ s.attempts
    pub refresh : length s.refreshed + absent id s.refreshed ≤ s.attempts

  -- The same between two turns: a turn that uses a slot again is paid for.
  abbrev pub Rested : Loop → Type 0
  Rested s =
      (s.attempts ≤ max_attempts)
      × (s.total ≤ credit s)
      × (length s.grace_used ≤ s.attempts)
      × (length s.refreshed ≤ s.attempts)

  abbrev pub Head : Loop → Type 0
  Head s = elim s.reuse [
    | none ↦ Rested s
    | some h ↦ Work h.account.id s × (suc s.total ≤ credit s)
  ]

  abbrev pub Spent : ℕ → Turn → Type 0
  Spent n (again s) = Head s × (s.total ≡ n)
  Spent n (breaks s) = s.total ≤ 3 * max_attempts + 1
  Spent n (served s) = s.total ≤ 3 * max_attempts + 1

  pub Work-bound : (id : Text) (s : Loop) → Work id s → s.total ≤ 3 * max_attempts + 1
  Work-bound id s w = ground (arith, w.bounded, w.paid, w.grace, w.refresh)

  rotate-Spent :
      (a : Answers) (delay : ℕ) (h : Held) (s : Loop)
      → s.reuse ≡ none
      → Work h.account.id s
      → Spent s.total (rotate max_attempts a delay h s)
  unfolding rotate let_go
  rotate-Spent a delay h s r w =
      ground (arith, w.bounded, w.paid, w.grace, w.refresh, Work-bound h.account.id s w)

  retry_or_rotate-Spent :
      (a : Answers) (d : RetryDecision) (h : Held) (s : Loop)
      → s.reuse ≡ none
      → Work h.account.id s
      → Spent s.total (retry_or_rotate max_attempts a d h s)
  unfolding retry_or_rotate let_go
  retry_or_rotate-Spent a d h s r w = ground (
    arith,
    w.bounded,
    w.paid,
    w.grace,
    w.refresh,
    Work-bound h.account.id s w,
    rotate-Spent a d.delay h s r w,
    contains_self h.account.id s.grace_used,
  )

  limit_account-Work :
      (now : ℕ) (id mapped : Text) (d : RetryDecision) (s : Loop)
      → s.reuse ≡ none
      → Work id s
      → ((limit_account now id mapped d s).reuse ≡ none)
        × Work id (limit_account now id mapped d s)
        × ((limit_account now id mapped d s).total ≡ s.total)
  unfolding limit_account
  limit_account-Work now id mapped d s r w = ground (arith, w.bounded, w.paid, w.grace, w.refresh)

  punish-Spent :
      (plan : Plan) (a : Answers) (d : RetryDecision) (h : Held) (s : Loop)
      → s.reuse ≡ none
      → Work h.account.id s
      → Spent s.total (punish max_attempts plan a d h s)
  unfolding punish
  punish-Spent plan a d h s r w =
      let (r', w', n) =
        limit_account-Work a.now h.account.id (mapped_model plan h.account) d s r w in
      subst (λ n. Spent n (punish max_attempts plan a d h s)) n
        (retry_or_rotate-Spent a d h _ r' w')

  refresh_or_punish-Spent :
      (plan : Plan) (a : Answers) (status : ℕ) (d : RetryDecision) (h : Held) (s : Loop)
      → KeepsId a
      → s.reuse ≡ none
      → Work h.account.id s
      → Spent s.total (refresh_or_punish max_attempts plan a status d h s)
  unfolding refresh_or_punish
  refresh_or_punish-Spent plan a status d h s keeps r w =
      let id = h.account.id in
      let tried = tell (invalidates_token id) (record s { refreshed = id ∷ s.refreshed }) in
      elim (Bool-cases (contains s.refreshed id)) [
        | inl old ↦ ground (arith, punish-Spent plan a d h s r w)
        | inr new ↦
            let w' : Work id tried =
              ground (arith, w.bounded, w.paid, w.grace, w.refresh, contains_self id s.refreshed) in
            elim (Option-cases (a.fresh h.account)) [
              | inl gone ↦
                  ground (arith, punish-Spent plan a d h s r w, punish-Spent plan a d h tried r w')
              | inr (fresh, e) ↦ ground (
                arith,
                punish-Spent plan a d h s r w,
                punish-Spent plan a d h tried r w',
                keeps h.account fresh e,
                w.bounded,
                w.paid,
                w.grace,
                w.refresh,
                contains_self id s.refreshed,
              )
            ]
      ]

  recover-Spent :
      (plan : Plan) (a : Answers) (status : ℕ) (b : Body) (d : RetryDecision) (h : Held) (s : Loop)
      → KeepsId a
      → s.reuse ≡ none
      → Work h.account.id s
      → Spent s.total (recover max_attempts plan a status b d h s)
  unfolding recover
  recover-Spent plan a status b d h s keeps r w =
      let told =
        if nat_beq status 403 && tells_forbidden b then tell (forbids h.account.id) s else s in
      ground (
        arith,
        w.bounded,
        w.paid,
        w.grace,
        w.refresh,
        refresh_or_punish-Spent plan a status d h (record told { retry_after = d.cooldown }) keeps,
      )

  pub fail-Spent :
      (plan : Plan) (a : Answers) (h : Held) (s : Loop)
      → KeepsId a
      → s.reuse ≡ none
      → Work h.account.id s
      → Spent s.total (fail max_attempts plan a h s)
  unfolding fail let_go
  fail-Spent plan a h s keeps r w =
      let status = status_of a.outcome in
      let b = body_of a.outcome in
      ground (
        arith,
        w.bounded,
        w.paid,
        w.grace,
        w.refresh,
        Work-bound h.account.id s w,
        recover-Spent plan a status b (retry_policy status a.hint b (s.attempts - 1) a.jitter) h
            (with_status status s) keeps r,
      )
