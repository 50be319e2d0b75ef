-- ===== src/Pool/Select/Cooling.antt =====
-- A limit keeps its account, or the model on it, out of every round until it is over.
use antigravity2api.Base.{ℕ, ◌≤◌, ◌<◌, ◌≡◌, ◌≢◌, subst, sym, ap, Bool, true, List, [], Text, arith}
use antigravity2api.Accounts.{Account}
use antigravity2api.Pool.Slots.{Slots}
use antigravity2api.Pool.Slots.Laws.{IsWf}
use antigravity2api.Pool.State.{Pool, ModelCandidate, LimitKey, LimitRecord}
use antigravity2api.Pool.View.{model_view, model_name}
use antigravity2api.Pool.Limits.{limit_key, key_of, until_of, limited_until, mark_limited}
use antigravity2api.Pool.Limits.Laws.{mark-until, extended_bounds}
use antigravity2api.Pool.Scan.{Env, standing, cooling_until}
use antigravity2api.Pool.Scan.Turn.{Somewhere, is_open}
use antigravity2api.Pool.Scan.Choice.{Somewhere-map}
use antigravity2api.Pool.Select.{granted, select_round, env_of}
use antigravity2api.Pool.Select.Outcome.{Outcome, select_round-Outcome}

open-cool :
    (e : Env) (s : Slots) (a : Account) (c : ModelCandidate)
    → is_open e s a c ≡ true
    → cooling_until e.limits a c ≤ e.now
unfolding standing
open-cool e s a c h = ground arith

cooling-scopes :
    (limits : List (LimitKey × LimitRecord)) (a : Account) (c : ModelCandidate)
    → (until_of (limit_key a.id []) limits ≤ cooling_until limits a c)
      × (until_of (limit_key a.id c.mapped) limits ≤ cooling_until limits a c)
unfolding cooling_until limited_until
cooling-scopes limits a c = (ground arith, ground arith)

module _ (now : ℕ) (id marked : Text) (until : ℕ) (p : Pool) (ahead : now < until)
    (wf : IsWf p.slots) (skip_expired : Bool) (at later : ℕ) (model sid : Text)
    (excluded : List Text) where
  limited : Pool
  limited = mark_limited now id marked until p

  marked_until : until ≤ until_of (key_of id marked) limited.limits
  unfolding limited
  marked_until =
      let bounds = extended_bounds now id marked until p ahead in
      rw (mark-until now id marked until p ahead) bounds.0

  limited-slots : limited.slots ≡ p.slots
  unfolding limited mark_limited
  limited-slots = ground arith

  -- A key that is the marked one is limited to beyond the round.
  reach :
      (i m : Text)
      → limit_key i m ≡ key_of id marked
      → until_of (limit_key i m) limited.limits < until
      → ⊥
  reach i m same short =
      let at_key = ap (λ (k : LimitKey). until_of k limited.limits) same in
      absurd (omega (arith, marked_until, at_key))

  -- After MarkLimited(id, marked, until) at `now`, a round before `until` that grants an account
  -- grants another one than `id`, or grants it for a model that is not the marked one; a limit
  -- without a model keeps the account out whatever the model.
  pub granted_not_limited :
      at < until
      → (a : Account) (r : ℕ)
      → (select_round skip_expired at later model sid excluded
          (mark_limited now id marked until p)).1
        ≡ granted a r
      → Somewhere
          (λ b c. (b ≡ a) × (b.id ≡ id → (model_name marked ≢ []) × (c.mapped ≢ model_name marked)))
          (mark_limited now id marked until p).accounts
          (model_view model (mark_limited now id marked until p)).1
  unfolding limited
  granted_not_limited early a r g =
      let e = env_of skip_expired at sid excluded limited in
      let outcome =
        select_round-Outcome skip_expired at later model sid excluded limited
          (rw limited-slots wf) in
      let ended =
        subst (Outcome e limited.slots later limited.accounts (model_view model limited).1) g
          outcome in
      Somewhere-map
        (λ b c (same, open_b).
          let cool = open-cool e limited.slots b c open_b in
          let (whole, one) = cooling-scopes limited.limits b c in
          (
            same,
            (λ mine. (
              (λ none_marked.
                  reach b.id [] (λ i. limit_key (mine i) (sym none_marked i)) (omega arith)),
              (λ this_model.
                  reach b.id c.mapped (λ i. limit_key (mine i) (this_model i)) (omega arith)),
            )),
          ))
        limited.accounts (model_view model limited).1 ended.1
