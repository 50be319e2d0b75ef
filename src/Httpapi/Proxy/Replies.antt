-- ===== src/Httpapi/Proxy/Replies.antt =====
-- What the client of a failed request is told.
use antigravity2api.Base.{
  ℕ, ◌-◌, ◌*◌, ◌≤◌, ◌<◌, ◌≡◌, refl, ◌⊎◌, inl, inr, List, [], ◌∷◌, Option, none, some, Bool-cases,
  leb, arith,
}
use antigravity2api.Time.{second}
use antigravity2api.Httpapi.Proxy.{
  Answers, Plan, Loop, Turn, again, breaks, served, error, answer, turn, close_loop, let_go,
  error_reply, proxy, retry_seconds,
}

-- Retry-After in seconds against the delay: the least number of seconds, and at least one, that
-- covers it; no header for no delay.
abbrev pub Covers : Option ℕ → ℕ → Type 0
Covers none delay = delay ≡ 0
Covers (some n) delay = (1 ≤ n) × (delay ≤ n * second) × ((n ≡ 1) ⊎ ((n - 1) * second < delay))

close-retry : (s : Loop) → (close_loop s).retry_after ≡ s.retry_after
unfolding close_loop let_go
close-retry s = ground arith

seconds-small : (d : ℕ) → d ≤ second → retry_seconds d ≡ 1
unfolding retry_seconds
seconds-small d small = omega arith

seconds-Covers : (d : ℕ) → Covers (some (retry_seconds d)) d
unfolding retry_seconds
seconds-Covers d = (
  omega arith,
  omega arith,
  elim (Bool-cases (leb d second)) [
    | inl small ↦ inl (seconds-small d (ground arith))
    | inr large ↦ inr (ground arith)
  ],
)

error_reply-Covers :
    (s : Loop) (status : ℕ) (after : Option ℕ)
    → error_reply s ≡ error status after
    → (400 ≤ status) × Covers after s.retry_after
unfolding error_reply
error_reply-Covers s status after e = ground (arith, seconds-Covers s.retry_after)

-- A request that is not served is answered by an error status, with a Retry-After that covers the
-- last delay and is the least number of seconds to do so, one second at least; without a delay
-- there is no Retry-After.
pub proxy-error :
    (max_attempts : ℕ) (plan : Plan) (answers : List Answers) (s t : Loop) (status : ℕ)
    (after : Option ℕ)
    → proxy max_attempts plan answers s ≡ some (t, error status after)
    → (400 ≤ status) × Covers after t.retry_after
unfolding proxy
proxy-error max_attempts plan [] s t status after e = absurd (cc)
proxy-error max_attempts plan (a ∷ answers) s t status after e =
    go (turn max_attempts plan a s) refl
      (λ v. proxy-error max_attempts plan answers v t status after)
  where
    go :
        (u : Turn)
        → turn max_attempts plan a s ≡ u
        → ((v : Loop)
            → proxy max_attempts plan answers v ≡ some (t, error status after)
            → (400 ≤ status) × Covers after t.retry_after)
        → (400 ≤ status) × Covers after t.retry_after
    go (again v) q ih = ih v (rw (q, proxy) at e)
    go (breaks v) q ih =
        let done : some (close_loop v, error_reply v) ≡ some (t, error status after) =
          rw (q, proxy) at e in
        let covers = error_reply-Covers v status after in
        ground (arith, done, covers, close-retry v)
    go (served v) q ih =
        let done : some (v, answer) ≡ some (t, error status after) = rw (q, proxy) at e in
        ground (arith, done)
