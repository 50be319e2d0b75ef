-- ===== src/Httpapi/Proxy.antt =====
-- The retry loop of Server.proxy in server/internal/httpapi/proxy.go. What other parts answer in a
-- turn of the loop (the pool, the upstream, the clock, the context of the request) is a record of
-- answers; what the loop asks of them is a trace, newest first. Messages and log lines are left
-- out, and so is what is written to the client but for the status and Retry-After.
pub mod Slots
pub mod Budget
pub mod Ends
pub mod Replies
use antigravity2api.Base.{
  ℕ, zero, suc, ◌+◌, ◌-◌, ◌/◌, ◌≤◌, ◌≡◌, Bool, true, false, ◌&&◌, ◌||◌, not, List, [], ◌∷◌, map,
  Option, none, some, Text, text_beq, nat_beq, is_empty, is_some, leb, ltb, max, if◌then◌else◌,
}
use antigravity2api.Strings.{codes, trim_space, to_lower, to_upper, clip, contains as contains_text}
use antigravity2api.Time.{second}
use antigravity2api.Json.{get, as_fields, Json, null, bool, num, str, arr, obj, Fields}
use antigravity2api.Accounts.{Account, ModelQuota}
use antigravity2api.Convert.Catalog.{contains, rewrite_to_available}
use antigravity2api.Httpapi.Retry.{Body, Hint, RetryDecision, retry_policy, mentions}

-- contextFailure: how a context ends.
pub data Failure : Type 0 where
  deadline canceled : Failure

unfoldable pub context_failure : Failure → ℕ
context_failure deadline = 504
context_failure canceled = 499

-- What Acquire gives: an account, or an error with the context's state and the RetryAfter of an
-- UnavailableError (0 where it is another error or the delay is not positive).
pub data Acquired : Type 0 where
  granted : Account → Acquired
  refused : Option Failure → ℕ → Acquired

-- What an attempt comes to: an error, with the code of an UpstreamError, or a response.
pub data Outcome : Type 0 where
  failed : Option ℕ → Body → Outcome
  answered : ℕ → Body → Outcome

-- How a stream ends: well, or by an error.
pub data StreamEnd : Type 0 where
  complete : StreamEnd
  broken : Option ℕ → Body → StreamEnd

pub record Answers : Type 0 where
  pub ended : Option Failure  -- ctx.Err() at the head of the loop
  pub acquired : Acquired
  pub build_fails : Bool
  pub not_outer : Bool  -- the payload is no OuterRequest
  pub started : ℕ
  pub outcome : Outcome
  pub stream_end : StreamEnd
  pub hint : Hint
  pub jitter : ℕ
  pub now : ℕ
  pub ended_after : Option Failure  -- ctx.Err() after a failed attempt
  pub strips : Bool  -- stripPenaltyFields finds a field
  pub invalidates : Bool  -- InvalidateTokenContext succeeds
  pub fresh : Account → Option Account  -- RefreshTokenContext
  pub wait : Option Failure  -- what s.wait returns

-- proxyPlan, as far as the loop reads it.
pub record Plan : Type 0 where
  pub target : Text
  pub stream : Bool
  pub count : Bool

-- An account with the number of the release closure that came with it.
pub record Held : Type 0 where
  pub account : Account
  pub lease : ℕ

-- What the loop asks of the other parts.
pub data Effect : Type 0 where
  acquires : List Text → Effect
  sends : Text → Effect
  releases : ℕ → Effect
  limits : Text → Text → ℕ → Effect
  clears : Text → Text → ℕ → Effect
  forbids : Text → Effect
  invalidates_token : Text → Effect
  waits : ℕ → Effect

-- The variables of proxy. `leases` counts the closures that came from Acquire, and `open` lists
-- those that have not run.
pub record Loop : Type 0 where
  pub attempts : ℕ
  pub total : ℕ
  pub reuse : Option Held
  pub grace_used : List Text
  pub refreshed : List Text
  pub exclude : List Text
  pub omit_penalties : Bool
  pub last_status : ℕ
  pub retry_after : ℕ
  pub leases : ℕ
  pub open_leases : List ℕ
  pub trace : List Effect

unfoldable pub start_loop : Loop
start_loop = record {
  attempts = 0;
  total = 0;
  reuse = none;
  grace_used = [];
  refreshed = [];
  exclude = [];
  omit_penalties = false;
  last_status = 0;
  retry_after = 0;
  leases = 0;
  open_leases = [];
  trace = [];
}

-- How a turn ends: the loop goes on, breaks, or the function has served the request.
pub data Turn : Type 0 where
  again : Loop → Turn
  breaks : Loop → Turn
  served : Loop → Turn

unfoldable pub remove : ℕ → List ℕ → List ℕ
remove n [] = []
remove n (m ∷ ms) = let rest = remove n ms in if nat_beq m n then rest else m ∷ rest

abbrev pub tell : Effect → Loop → Loop
tell e s = record s { trace = e ∷ s.trace }

-- release(), which runs once.
unfoldable pub let_go : ℕ → Loop → Loop
unfolding remove
let_go n s = record s { open_leases = remove n s.open_leases; trace = releases n ∷ s.trace }

abbrev pub with_status : ℕ → Loop → Loop
with_status status s = record s { last_status = status }

-- The loop of accountModelNames.
unfoldable pub trimmed_names : List ModelQuota → List Text
unfolding trim_space
trimmed_names [] = []
trimmed_names (m ∷ ms) =
    let rest = trimmed_names ms in
    if is_empty (trim_space m.name) then rest else trim_space m.name ∷ rest

-- accountModelNames
unfoldable pub account_model_names : Account → List Text
unfolding trimmed_names
account_model_names a = elim a.quota [ none ↦ [] | some q ↦ trimmed_names q.quota_models ]

-- accountForwarding
unfoldable pub account_forwarding : Account → List (Text × Text)
account_forwarding a = elim a.quota [ none ↦ [] | some q ↦ q.forwarding_rules ]

unfoldable pub mapped_model : Plan → Account → Text
unfolding rewrite_to_available account_model_names account_forwarding
mapped_model plan a =
    rewrite_to_available plan.target (account_model_names a) (account_forwarding a)

-- The message that clipErr takes from the object, or the text.
unfoldable pub error_text : Json → Text → Text
unfolding get
error_text (str t) s = t
error_text (obj fs) s = elim (get (codes "message") fs) [ str m ↦ m | _ ↦ s ]
error_text _ s = s

-- clipErr
unfoldable pub clip_err : Body → Text
unfolding clip error_text get trim_space
clip_err b =
    let s = trim_space b.text in
    if is_empty s
    then codes "upstream error"
    else clip 500 (elim b.object [ none ↦ s | some fs ↦ error_text (get (codes "error") fs) s ])

-- isPenaltyRejection
unfoldable pub is_penalty_rejection : ℕ → Body → Bool
unfolding clip_err to_lower mentions
is_penalty_rejection status b =
    nat_beq status 400
    && mentions
        (codes "penalty is not enabled"
          ∷ codes "penalties are not enabled"
          ∷ codes "unsupported penalty"
          ∷ codes "penalty is not supported"
          ∷ [])
        (to_lower (clip_err b))

-- The status that an attempt counts as.
unfoldable pub status_of : Outcome → ℕ
status_of (failed none b) = 502
status_of (failed (some code) b) = if leb 400 code then code else 502
status_of (answered status b) = status

abbrev pub body_of : Outcome → Body
body_of (failed code b) = b
body_of (answered status b) = b

abbrev pub is_success : Outcome → Bool
is_success (failed code b) = false
is_success (answered status b) = leb 200 status && ltb status 300

-- MarkLimited(acc.ID, scope, time.Now().Add(decision.cooldown)), if there is a cooldown.
unfoldable pub limit_account : ℕ → Text → Text → RetryDecision → Loop → Loop
limit_account now id mapped d s =
    if ltb 0 d.cooldown
    then tell (limits id (if d.model_scoped then mapped else []) (now + d.cooldown)) s
    else s

abbrev pub clear_account : ℕ → Text → Text → Loop → Loop
clear_account started id mapped s = tell (clears id mapped started) (tell (clears id [] started) s)

-- What follows a stream that broke off.
unfoldable pub after_stream : Answers → Text → Text → ℕ → Loop → Loop
after_stream a id mapped attempts s = elim a.stream_end [
  | complete ↦ clear_account a.started id mapped s
  | broken none b ↦ s
  | broken (some code) b ↦
      if leb 400 code
      then limit_account a.now id mapped (retry_policy code a.hint b (attempts - 1) a.jitter) s
      else s
]

-- The branch of success.
unfoldable pub succeed : Plan → Answers → Held → Loop → Loop
succeed plan a h s =
    let mapped = mapped_model plan h.account in
    let done = let_go h.lease s in
    if plan.stream
    then after_stream a h.account.id mapped s.attempts done
    else clear_account a.started h.account.id mapped done

-- From `exclude[acc.ID] = struct{}{}` on.
unfoldable pub rotate : ℕ → Answers → ℕ → Held → Loop → Turn
rotate max_attempts a delay h s =
    let next = let_go h.lease (record s { exclude = h.account.id ∷ s.exclude }) in
    if leb max_attempts next.attempts then breaks next else elim a.wait [
      | some f ↦ breaks (with_status (context_failure f) (tell (waits delay) next))
      | none ↦ again (tell (waits delay) next)
    ]

-- The grace retry, else the next account.
unfoldable pub retry_or_rotate : ℕ → Answers → RetryDecision → Held → Loop → Turn
retry_or_rotate max_attempts a d h s =
    if not d.retry
    then breaks (let_go h.lease s)
    else (if d.grace && not (contains s.grace_used h.account.id)
        then (let waited =
              tell (waits d.delay) (record s { grace_used = h.account.id ∷ s.grace_used }) in
            elim a.wait [
              | some f ↦ breaks (with_status (context_failure f) (let_go h.lease waited))
              | none ↦ again (record waited { reuse = some h })
            ])
        else rotate max_attempts a d.delay h s)

-- From the computation of `scope` on.
unfoldable pub punish : ℕ → Plan → Answers → RetryDecision → Held → Loop → Turn
punish max_attempts plan a d h s =
    retry_or_rotate max_attempts a d h
      (limit_account a.now h.account.id (mapped_model plan h.account) d s)

-- A 401: the token is refreshed once for an account, and the slot is used again.
unfoldable pub refresh_or_punish : ℕ → Plan → Answers → ℕ → RetryDecision → Held → Loop → Turn
refresh_or_punish max_attempts plan a status d h s =
    if nat_beq status 401 && not (contains s.refreshed h.account.id)
    then (let tried =
          tell (invalidates_token h.account.id)
            (record s { refreshed = h.account.id ∷ s.refreshed }) in
        let given_up = punish max_attempts plan a d h tried in
        elim (if a.invalidates then a.fresh h.account else none) [
          | some fresh ↦ again (record tried { reuse = some (record h { account = fresh }) })
          | none ↦ given_up
        ])
    else punish max_attempts plan a d h s

abbrev pub tells_forbidden : Body → Bool
tells_forbidden b =
    contains_text (to_upper b.text) (codes "VALIDATION_REQUIRED")
    || contains_text (to_upper b.text) (codes "PERMISSION_DENIED")

-- From the test of a rejected penalty on; `s` has the new last status.
unfoldable pub recover : ℕ → Plan → Answers → ℕ → Body → RetryDecision → Held → Loop → Turn
recover max_attempts plan a status b d h s =
    if not s.omit_penalties && is_penalty_rejection status b && a.strips
    then again (record s { omit_penalties = true; reuse = some h })
    else (let told =
          if nat_beq status 403 && tells_forbidden b then tell (forbids h.account.id) s else s in
        refresh_or_punish max_attempts plan a status d h (record told { retry_after = d.cooldown }))

-- An attempt that is not a success.
unfoldable pub fail : ℕ → Plan → Answers → Held → Loop → Turn
fail max_attempts plan a h s =
    let status = status_of a.outcome in
    let b = body_of a.outcome in
    let rest =
      recover max_attempts plan a status b (retry_policy status a.hint b (s.attempts - 1) a.jitter)
        h (with_status status s) in
    elim a.ended_after [
      | some f ↦ breaks (with_status (context_failure f) (let_go h.lease s))
      | none ↦ rest
    ]

-- The body of the loop from the call of plan.build on.
unfoldable pub attempt : ℕ → Plan → Answers → Held → Loop → Turn
attempt max_attempts plan a h s =
    if a.build_fails
    then breaks (with_status 400 (let_go h.lease s))
    else (let counted = record s { total = s.total + 1 } in
        let sent = tell (sends h.account.id) counted in
        if plan.count && a.not_outer
        then breaks (with_status 500 (let_go h.lease counted))
        else (if is_success a.outcome
            then served (succeed plan a h sent)
            else fail max_attempts plan a h sent))

-- A turn that has to acquire an account.
unfoldable pub acquire : ℕ → Plan → Answers → Loop → Turn
acquire max_attempts plan a s =
    let asked = tell (acquires s.exclude) s in
    elim a.acquired [
      | granted acc ↦
          attempt max_attempts plan a (record { account = acc; lease = s.leases })
            (record asked {
              attempts = s.attempts + 1;
              leases = s.leases + 1;
              open_leases = s.leases ∷ s.open_leases;
            })
      | refused (some f) after ↦ breaks (with_status (context_failure f) asked)
      | refused none after ↦ breaks (record asked {
        retry_after = if ltb 0 after then after else s.retry_after;
        last_status = if nat_beq s.last_status 0 then 503 else s.last_status;
      })
    ]

-- One turn, from the condition of the loop on.
unfoldable pub turn : ℕ → Plan → Answers → Loop → Turn
turn max_attempts plan a s =
    let reused : Turn = elim s.reuse [
      | some h ↦ attempt max_attempts plan a h (record s { reuse = none })
      | none ↦ acquire max_attempts plan a s
    ] in
    if ltb s.attempts max_attempts || is_some s.reuse
    then elim a.ended [ some f ↦ breaks (with_status (context_failure f) s) | none ↦ reused ]
    else breaks s

-- What the client gets: an answer, or an error with a status and the seconds of Retry-After.
pub data Reply : Type 0 where
  answer : Reply
  error : ℕ → Option ℕ → Reply

-- What follows the loop; a slot that was to be used again is given back.
unfoldable pub close_loop : Loop → Loop
close_loop s = elim s.reuse [ none ↦ s | some h ↦ let_go h.lease (record s { reuse = none }) ]

-- math.Ceil of the seconds, and at least 1.
unfoldable pub retry_seconds : ℕ → ℕ
retry_seconds d = max 1 ((d + (second - 1)) / second)

unfoldable pub error_reply : Loop → Reply
error_reply s =
    error (if ltb s.last_status 400 then 503 else s.last_status)
      (if ltb 0 s.retry_after then some (retry_seconds s.retry_after) else none)

-- The loop, fed with the answers of one turn after another; `none` says that they ran out.
unfoldable pub proxy : ℕ → Plan → List Answers → Loop → Option (Loop × Reply)
unfolding turn close_loop error_reply acquire after_stream attempt contains contains_text
    context_failure fail is_penalty_rejection let_go limit_account mapped_model punish recover
    refresh_or_punish retry_or_rotate retry_policy retry_seconds rotate status_of succeed to_upper
proxy max_attempts plan [] s = none
proxy max_attempts plan (a ∷ answers) s = elim (turn max_attempts plan a s) [
  | served t ↦ some (t, answer)
  | breaks t ↦ some (close_loop t, error_reply t)
  | again t ↦ proxy max_attempts plan answers t
]
