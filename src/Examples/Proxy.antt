-- ===== src/Examples/Proxy.antt =====
-- Runs of the retry loop of a request.
use antigravity2api.Base.{◌+◌, ◌*◌, ◌≤◌, ◌≡◌, refl, true, false, [], ◌∷◌, none, some, Text, arith}
use antigravity2api.Strings.{codes}
use antigravity2api.Time.{second, millisecond}
use antigravity2api.Accounts.{Account}
use antigravity2api.Httpapi.Retry.{Body}
use antigravity2api.Httpapi.Proxy.{
  Answers, Plan, Loop, Reply, error, answer, Outcome, failed, answered, complete, granted, refused,
  start_loop, proxy, acquires, sends, releases, limits, clears, waits,
}
use antigravity2api.Httpapi.Proxy.Slots.{HoldsReuse, proxy-releases}
use antigravity2api.Httpapi.Proxy.Ends.{proxy_total}
use antigravity2api.Httpapi.Proxy.Replies.{Covers, proxy-error}

abbrev ada : Account
ada = record {
  id = codes "ada";
  email = codes "ada@example.com";
  refresh_token = codes "r";
  access_token = codes "t";
  expiry_timestamp = 0;
  project_id = codes "p";
  quota = none;
  disabled = false;
  last_used = 0;
  rate_limited_until = 0;
  expires_at = 0;
}

abbrev plan : Plan
plan = record { target = codes "gemini-3-pro"; stream = false; count = false }

abbrev says : Text → Body
says s = record { text = s; object = none }

-- A turn in which the pool has an account, and the upstream answers.
abbrev on_outcome : Outcome → Answers
on_outcome outcome = record {
  ended = none;
  acquired = granted ada;
  build_fails = false;
  not_outer = false;
  started = 7;
  outcome = outcome;
  stream_end = complete;
  hint = none;
  jitter = 10;
  now = 100;
  ended_after = none;
  strips = false;
  invalidates = true;
  fresh = λ x. some x;
  wait = none;
}

abbrev good : Answers
good = on_outcome (answered 200 (says []))

-- A rate limit with a hint of 2 seconds, which allows a grace retry.
abbrev limited : Answers
limited = record (on_outcome (answered 429 (says (codes "rate limit")))) {
  hint = some (2 * second, false);
}

abbrev dead : Answers
dead = on_outcome (failed none (says []))

abbrev empty_pool : Answers
empty_pool = record good { acquired = refused none (3 * second) }

abbrev grace_end : Loop
grace_end = record {
  attempts = 1;
  total = 2;
  reuse = none;
  grace_used = codes "ada" ∷ [];
  refreshed = [];
  exclude = [];
  omit_penalties = false;
  last_status = 429;
  retry_after = 2 * second;
  leases = 1;
  open_leases = [];
  trace =
      clears (codes "ada") (codes "gemini-3-pro") 7
      ∷ clears (codes "ada") [] 7
      ∷ releases 0
      ∷ sends (codes "ada")
      ∷ waits (2 * second + 260 * millisecond)
      ∷ limits (codes "ada") [] (100 + 2 * second)
      ∷ sends (codes "ada")
      ∷ acquires []
      ∷ [];
}

-- After the wait the same account is asked again, in the slot that it holds.
grace_run : proxy 2 plan (limited ∷ good ∷ []) start_loop ≡ some (grace_end, answer)
unfolding proxy start_loop
grace_run = refl

start_holds : HoldsReuse start_loop
unfolding start_loop
start_holds = refl

proxy-releases_example : grace_end.open_leases ≡ []
proxy-releases_example =
    proxy-releases 2 plan (limited ∷ good ∷ []) start_loop grace_end answer start_holds grace_run

keeps : (x y : Account) → some x ≡ some y → y.id ≡ x.id
keeps x y e = ground (arith, e)

proxy_total_example :
    (t : Loop) × (r : Reply) × (proxy 1 plan (dead ∷ dead ∷ limited ∷ good ∷ good ∷ []) start_loop
      ≡ some (t, r))
    × (t.total ≤ 3 * 1 + 1)
proxy_total_example =
    proxy_total 1 plan (dead ∷ dead ∷ limited ∷ good ∷ good ∷ [])
      (keeps, (keeps, (keeps, (keeps, (keeps, _))))) (omega arith)

-- The pool has no account, and says that one is free in 3 seconds.
abbrev refused_end : Loop
refused_end = record {
  attempts = 0;
  total = 0;
  reuse = none;
  grace_used = [];
  refreshed = [];
  exclude = [];
  omit_penalties = false;
  leases = 0;
  open_leases = [];
  last_status = 503;
  retry_after = 3 * second;
  trace = acquires [] ∷ [];
}

refused_run : proxy 2 plan (empty_pool ∷ []) start_loop ≡ some (refused_end, error 503 (some 3))
unfolding proxy start_loop
refused_run = refl

proxy-error_example : (400 ≤ 503) × Covers (some 3) refused_end.retry_after
proxy-error_example =
    proxy-error 2 plan (empty_pool ∷ []) start_loop refused_end 503 (some 3) refused_run
