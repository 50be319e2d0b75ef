-- ===== src/Pool/Select/Outcome.antt =====
-- What a round of selection promises, whichever way it ends.
use antigravity2api.Base.{
  ℕ, ◌<◌, ◌≡◌, refl, sym, ◌∙◌, Bool, true, false, ◌&&◌, ◌⊎◌, inl, inr, List, none, some, Text, leb,
  ltb, if◌then◌else◌, ℤ, pos, sub_ℕ, Bool-cases, Option-cases, arith,
}
use antigravity2api.Time.{is_zero}
use antigravity2api.Accounts.{Account}
use antigravity2api.Pool.Slots.{Slots, reading}
use antigravity2api.Pool.Slots.Laws.{IsWf}
use antigravity2api.Pool.State.{Pool, ModelCandidate}
use antigravity2api.Pool.View.{model_view}
use antigravity2api.Pool.Scan.{Env, Scan, waits, standing, start, scan}
use antigravity2api.Pool.Scan.Laws.{start-Sound}
use antigravity2api.Pool.Scan.Turn.{Each, Somewhere, Prevails, is_ready, is_open}
use antigravity2api.Pool.Scan.Choice.{Each-map, Somewhere-map, scan-Prevails, scan-origin}
use antigravity2api.Pool.Scan.Waits.{Awaits, Reported, is_full, scan-report, scan-reported}
use antigravity2api.Pool.Select.{
  Selected, granted, all_busy, unavailable, env_of, conclude, select_round, drop_stale_binding,
}

-- The delay that is reported: none where no account has an instant to wait for, else the time from
-- `later` to the earliest such instant.
abbrev pub Delays : Env → ℕ → List Account → List ModelCandidate → ℤ → Type 0
Delays e later accounts view d =
    (t : ℕ) × Each (λ a c. Awaits (standing e a c) t) accounts view
    × (((t ≡ 0) × (d ≡ pos 0))
        ⊎ ((0 < t)
            × Somewhere (λ a c. standing e a c ≡ waits t) accounts view
            × (d ≡ sub_ℕ t later)))

-- The three ends of a round, for the reservations before it.
abbrev pub Outcome : Env → Slots → ℕ → List Account → List ModelCandidate → Selected → Type 0
Outcome e s later accounts view (granted a r) =
    Each (λ b c. is_open e s b c ≡ true → Prevails e s (some (a, r)) b) accounts view
    × Somewhere (λ b c. (b ≡ a) × (is_open e s b c ≡ true)) accounts view
Outcome e s later accounts view all_busy =
    Each (λ b c. is_open e s b c ≡ false) accounts view
    × Somewhere (λ b c. is_full e s b c ≡ true) accounts view
Outcome e s later accounts view (unavailable d) =
    Each (λ b c. is_ready (standing e b c) ≡ false) accounts view × Delays e later accounts view d

not_ready :
    (k : Bool) (active cap : ℕ)
    → (k && ltb active cap) ≡ false
    → ((k && leb cap active) ≡ true → false ≡ true)
    → k ≡ false
not_ready true active cap h f = absurd (let p : ltb active cap ≡ false = h in cc (f (ground arith)))
not_ready false active cap h f = refl

module _ (e : Env) (s : Slots) (wf : IsWf s) (accounts : List Account)
    (view : List ModelCandidate) where
  final : Scan
  final = scan e accounts view (start s)

  granted-Outcome :
      (a : Account) (r later : ℕ)
      → final.picked ≡ some (a, r)
      → Outcome e s later accounts view (granted a r)
  unfolding final
  granted-Outcome a r later p =
      let sound = start-Sound e s wf in
      let (_, each) = scan-Prevails e s accounts view (start s) sound tt final refl in
      (
        Each-map (λ b c h o. rw p at (h o)) accounts view each,
        elim (scan-origin e s accounts view (start s) sound tt final refl) [
          | inl same ↦ absurd (let q = sym p ∙ same in cc)
          | inr there ↦
              Somewhere-map (λ b c (may, (q, m)). (ground (arith, sym m ∙ p), may)) accounts view
                there
        ],
      )

  -- What the loop reports of each account when it has picked nobody.
  reports : final.picked ≡ none → Each (λ b c. Reported e s b c final) accounts view
  unfolding final
  reports p = (scan-report e s accounts view (start s) (start-Sound e s wf) tt final refl).0

  busy-Outcome :
      (later : ℕ)
      → final.picked ≡ none
      → final.busy ≡ true
      → Outcome e s later accounts view all_busy
  unfolding final
  busy-Outcome later p b = (
    Each-map (λ a c h. (h p).0) accounts view (reports p),
    elim ((scan-reported e s accounts view (start s) (start-Sound e s wf) final refl).1 b) [
      | inl f ↦ absurd (cc)
      | inr there ↦ there
    ],
  )

  delay : ℕ → ℤ
  delay later = if is_zero final.earliest then pos 0 else sub_ℕ final.earliest later

  delay_lem : (later : ℕ) → final.picked ≡ none → Delays e later accounts view (delay later)
  unfolding final delay
  delay_lem later p = (
    final.earliest,
    Each-map (λ a c h. (h p).2) accounts view (reports p),
    elim ((scan-reported e s accounts view (start s) (start-Sound e s wf) final refl).0) [
      | inl zero_t ↦ inl (zero_t, rw zero_t)
      | inr there ↦ elim (Bool-cases (is_zero final.earliest)) [
        | inl z ↦ inl (ground arith, rw z)
        | inr nz ↦ inr (ground arith, there, rw nz)
      ]
    ],
  )

  unavailable-Outcome :
      (later : ℕ)
      → final.picked ≡ none
      → final.busy ≡ false
      → Outcome e s later accounts view (unavailable (delay later))
  unavailable-Outcome later p b = (
    Each-map
        (λ a c h.
          let (closed, busy, await) = h p in
          not_ready (is_ready (standing e a c)) (reading s a.id).active e.cap closed
            (λ f. sym b ∙ busy f))
        accounts view (reports p),
    delay_lem later p,
  )

  conclude-Outcome :
      (now later : ℕ) (sid : Text) (p : Pool)
      → Outcome e s later accounts view (conclude now later sid final p).1
  unfolding conclude
  conclude-Outcome now later sid p = elim (Option-cases final.picked) [
    | inl n ↦
        rw (n, conclude)
          (elim (Bool-cases final.busy) [
            | inl b ↦ rw b (busy-Outcome later n b)
            | inr b ↦ rw b (unfold delay in unavailable-Outcome later n b)
          ])
    | inr ((a, r), q) ↦ rw (q, conclude) (granted-Outcome a r later q)
  ]

module _ (skip_expired : Bool) (now later : ℕ) (model sid : Text) (excluded : List Text)
    (p : Pool) where
  -- For reservations that are well-formed, a round ends in one of three ways, judged by the limits,
  -- the accounts and the reservations before it. It grants an open account (not excluded, disabled,
  -- expired or forbidden, its model available, not cooling, below the cap) that is the one bound to
  -- the session, or else no open account is bound, has fewer requests, or has as many and was used
  -- earlier. It finds all busy: no account is open, and one is ready but at the cap. Or it is
  -- unavailable: no account is ready, and the delay runs to the earliest instant at which one comes
  -- back, or is 0 if there is none.
  pub select_round-Outcome :
      IsWf p.slots
      → Outcome
          (env_of skip_expired now sid excluded p)
          p.slots
          later
          p.accounts
          (model_view model p).1
          (select_round skip_expired now later model sid excluded p).1
  unfolding select_round final
  select_round-Outcome wf =
      let (p', view) = model_view model p in
      conclude-Outcome (env_of skip_expired now sid excluded p) p.slots wf p.accounts view now later
        sid (record p' { sessions = drop_stale_binding now sid p'.sessions })
