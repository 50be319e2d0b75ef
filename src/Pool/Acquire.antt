-- ===== src/Pool/Acquire.antt =====
-- selectAccount and Acquire of server/internal/pool/scheduler.go: the loops around the critical
-- sections of the pool, with the token refresh between them. What the clock, the context, the
-- database and the upstream answer in a turn is a record; other requests run their own critical
-- sections in between, and cannot call a closure that is not theirs. The loops are recursions on the
-- list of answers.
pub mod Slots
pub mod Checked
pub mod Handed
pub mod Turns
use antigravity2api.Base.{
  ℕ, ◌+◌, ◌*◌, Bool, true, false, ◌&&◌, ◌||◌, not, List, [], ◌∷◌, ltb, Option, none, some, Text,
  text_eq, is_empty, length, lookup, get_elem?, nat_beq, ℤ, if◌then◌else◌,
}
use antigravity2api.Strings.{codes, contains}
use antigravity2api.Time.{second, after, unix, unix_seconds, unix_epoch}
use antigravity2api.Accounts.{Account}
use antigravity2api.Pool.State.{Pool, ModelCandidate}
use antigravity2api.Pool.View.{available, model_view}
use antigravity2api.Pool.Limits.{mark_limited, limited_until}
use antigravity2api.Pool.Snapshot.{load_snapshot}
use antigravity2api.Pool.Scan.{withdrawn}
use antigravity2api.Pool.Select.{Selected, granted, all_busy, unavailable}
use antigravity2api.Pool.System.{System, Call, step, release, releases, acquire, on_pool, run}
use antigravity2api.Pool.Refresh.{
  Tokens, World, RefreshError, backed_off, upstream_failed, account_disabled, ensure_fresh,
  ensure_project, update_row,
}

-- The critical sections of other requests; the closure `own` is not theirs.
unfoldable pub others : ℕ → List Call → System → System
unfolding step
others own [] s = s
others own (releases i ∷ cs) s =
    let rest = others own cs (release i s) in
    let skipped = others own cs s in if nat_beq own i then skipped else rest
others own (c ∷ cs) s = others own cs (step c s)

-- What the store gives loadSnapshot, if it works.
abbrev pub Listing : Type 0
Listing = Option (List Account × ℕ)

-- One round of selectAccount.
pub record Round : Type 0 where
  pub meanwhile : List Call
  pub alive : Bool  -- ctx.Err() == nil and p.ctx.Err() == nil
  pub listing : Listing
  pub skip_expired : Bool
  pub now : ℕ
  pub later : ℕ

-- How Acquire fails. A list of answers that is too short leaves the request waiting.
pub data Denial : Type 0 where
  context_ended store_failed waiting : Denial
  no_accounts : ℤ → Option RefreshError → Denial

pub data Selection : Type 0 where
  selects : Account → ℕ → Selection
  refuses : Denial → Selection

-- How a round ends, with the place of the closure if one is handed out; `rest` is the next round.
unfoldable pub settle : ℕ → System × Selected → System × Selection → System × Selection
settle i (t, granted a r) rest = (t, selects a i)
settle i (t, all_busy) rest = rest
settle i (t, unavailable d) rest = (t, refuses (no_accounts d none))

-- selectAccount
unfoldable pub select_account : Text → Text → List Text → List Round → System → System × Selection
unfolding acquire load_snapshot settle run
select_account model sid excluded [] s = (s, refuses waiting)
select_account model sid excluded (w ∷ ws) s =
    let t = run w.meanwhile s in
    if not w.alive then (t, refuses context_ended) else elim w.listing [
      | none ↦ (t, refuses store_failed)
      | some (accounts, version) ↦
          let u = on_pool t (load_snapshot accounts version t.pool) in
          let round = acquire w.skip_expired w.now w.later model sid excluded u in
          settle (length u.leases) round (select_account model sid excluded ws round.0)
    ]

-- What a turn of Acquire is answered.
pub record Visit : Type 0 where
  pub rounds : List Round
  pub refreshes : World  -- ensureFreshContext
  pub projects : World  -- ensureProject
  pub between_calls : List Call  -- other requests, while credentials are looked up
  pub alive : Bool  -- ctx.Err() == nil after a failure
  pub disable_works : Bool  -- SetDisabledContext does not fail
  pub failed_at : ℕ
  pub listing : Listing
  pub skip_expired : Bool
  pub now : ℕ
  pub still_alive : Bool  -- ctx.Err() == nil at the end
  pub marks_used : Bool  -- MarkUsed does not fail
  pub used_at : ℕ

-- The variables of Acquire, the pool and the table; `got` are the closures it was handed, newest
-- first.
pub record Errand : Type 0 where
  pub system : System
  pub tokens : Tokens
  pub excluded : List Text
  pub last : Option RefreshError
  pub got : List ℕ

pub data Acquired : Type 0 where
  lent : Account → ℕ → Acquired
  denied : Denial → Acquired

-- The end of a turn.
pub data Progress : Type 0 where
  continues : Progress
  returns : Acquired → Progress

-- ensureFreshContext, ensureProject and the test of Disabled.
unfoldable pub look_up : World → World → Account → Tokens → Tokens × Account × Option RefreshError
unfolding ensure_fresh ensure_project
look_up f p a s =
    let (t, b, err) = ensure_fresh f a s in
    let (u, c, failure) = if is_empty b.project_id then ensure_project p b t else (t, b, none) in
    elim err [
      | some e ↦ (t, b, some e)
      | none ↦ elim failure [
        | some e ↦ (u, c, some e)
        | none ↦ (u, c, if c.disabled then some account_disabled else none)
      ]
    ]

-- strings.Contains(err.Error(), "invalid_grant"); the errors without a message of the upstream's
-- have none in theirs.
unfoldable pub is_invalid_grant : RefreshError → Bool
unfolding contains
is_invalid_grant (backed_off message) = contains message (codes "invalid_grant")
is_invalid_grant (upstream_failed message) = contains message (codes "invalid_grant")
is_invalid_grant _ = false

-- `_ = p.store.SetDisabledContext(...)`
unfoldable pub disable_row : Bool → Text → Tokens → Tokens
unfolding update_row
disable_row works id s = elim (update_row works id (λ row. record row { disabled = true }) s) [
  | some t ↦ t
  | none ↦ s
]

-- The block of `if err != nil`.
unfoldable pub give_up : Visit → Account → ℕ → RefreshError → Errand → Errand × Progress
unfolding release disable_row is_invalid_grant mark_limited
give_up v a i e s =
    let freed = release i s.system in
    let noted = record s { excluded = a.id ∷ s.excluded; last = some e } in
    if not v.alive then (record s { system = freed }, returns (denied context_ended)) else (
      if is_invalid_grant e
          then record noted { system = freed; tokens = disable_row v.disable_works a.id s.tokens }
          else record noted {
            system =
                on_pool freed
                  (mark_limited v.failed_at a.id [] (v.failed_at + 5 * second) freed.pool);
          },
      continues,
    )

-- `valid` and `cooling`, of the account at that place of the snapshot.
abbrev pub is_valid : Bool → ℕ → Account → ModelCandidate → Bool
is_valid skip_expired now a c = not (withdrawn skip_expired now a) && available c now

abbrev pub is_cooling : ℕ → Account → ModelCandidate → Pool → Bool
is_cooling now a c p =
    after (limited_until p.limits a.id c.mapped) now
    || ltb (unix_seconds now) (a.rate_limited_until + unix_epoch)

-- What the account's entry says, under the lock: the pool, `valid` and `cooling`. The index always
-- points into the accounts.
unfoldable pub revalidate : Text → Text → Bool → ℕ → Pool → Pool × Bool × Bool
unfolding lookup model_view
revalidate model id skip_expired now p = elim (lookup id p.account_index) [
  | none ↦ (p, false, false)
  | some i ↦
      let (q, view) = model_view model p in
      elim (get_elem? p.accounts i) [
        | none ↦ (q, false, false)
        | some a ↦ elim (get_elem? view i) [
          | none ↦ (q, false, false)
          | some c ↦ (q, is_valid skip_expired now a c, is_cooling now a c p)
        ]
      ]
]

-- From the end of the revalidation on.
unfoldable pub hand_over : Visit → Account → ℕ → Bool → Bool → Errand → Errand × Progress
unfolding release
hand_over v a i valid cooling s =
    let freed = record s { system = release i s.system } in
    if not valid
    then (record freed { excluded = a.id ∷ s.excluded }, continues)
    else (if cooling
        then (freed, continues)
        else (if not v.still_alive
            then (freed, returns (denied context_ended))
            else (if not v.marks_used
                then (freed, returns (denied store_failed))
                else (s, returns (lent (record a { last_used = unix v.used_at }) i)))))

-- From loadSnapshot on, with an account whose credentials are there.
unfoldable pub confirm : Text → Visit → Account → ℕ → Errand → Errand × Progress
unfolding load_snapshot revalidate hand_over release
confirm model v a i s = elim v.listing [
  | none ↦ (record s { system = release i s.system }, returns (denied store_failed))
  | some (accounts, version) ↦
      let p = load_snapshot accounts version s.system.pool in
      let (q, valid, cooling) = revalidate model a.id v.skip_expired v.now p in
      hand_over v a i valid cooling (record s { system = on_pool s.system q })
]

-- With a slot of an account.
unfoldable pub use_slot : Text → Visit → Account → ℕ → Errand → Errand × Progress
unfolding look_up give_up confirm others
use_slot model v a i s =
    let (t, b, err) = look_up v.refreshes v.projects a s.tokens in
    let looked = record s {
      system = others i v.between_calls s.system;
      tokens = t;
      got = i ∷ s.got;
    } in
    elim err [ some e ↦ give_up v b i e looked | none ↦ confirm model v b i looked ]

-- errors.Join(err, lastErr)
abbrev pub join : Denial → Option RefreshError → Denial
join (no_accounts d none) last = no_accounts d last
join e last = e

-- The body of the loop.
unfoldable pub attempt_account : Text → Text → Visit → Errand → Errand × Progress
unfolding select_account use_slot
attempt_account model sid v s =
    let (t, selection) = select_account model sid s.excluded v.rounds s.system in
    elim selection [
      | refuses e ↦ (record s { system = t }, returns (denied (join e s.last)))
      | selects a i ↦ use_slot model v a i (record s { system = t })
    ]

-- Acquire
unfoldable pub acquire_account : Text → Text → List Visit → Errand → Errand × Acquired
unfolding attempt_account
acquire_account model sid [] s = (s, denied waiting)
acquire_account model sid (v ∷ vs) s =
    let (t, progress) = attempt_account model sid v s in
    let rest = acquire_account model sid vs t in
    elim progress [ continues ↦ rest | returns r ↦ (t, r) ]

-- Acquire starts with the accounts that its caller leaves out.
unfoldable pub set_out : System → Tokens → List Text → Errand
set_out s t excluded = record { system = s; tokens = t; excluded = excluded; last = none; got = [] }
