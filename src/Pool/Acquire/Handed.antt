-- ===== src/Pool/Acquire/Handed.antt =====
-- The closures after selectAccount.
use antigravity2api.Base.{
  ℕ, ◌≡◌, refl, sym, subst, Bool, true, List, [], ◌∷◌, Text, All, length, Option-cases, Bool-cases,
  inl, inr, arith,
}
use antigravity2api.Accounts.{Account}
use antigravity2api.Pool.Snapshot.{load_snapshot}
use antigravity2api.Pool.Select.{Selected, granted, all_busy, unavailable}
use antigravity2api.Pool.System.{Lease, System, lend, acquire, on_pool, run}
use antigravity2api.Pool.Acquire.{
  Round, Selection, selects, refuses, settle, select_account, context_ended, store_failed,
}
use antigravity2api.Pool.Acquire.Slots.{
  IsSpent, Lends, get_elem-last, Stays, IsSpent-Stays, acquire-Stays, run-Stays,
}

abbrev pub AllSpent : List ℕ → List Lease → Type 0
AllSpent got ls = All (λ i. IsSpent i ls) got

pub all-Stays : (allowed : ℕ → Bool) (got : List ℕ) → Stays allowed (AllSpent got)
all-Stays allowed [] = record { lending = λ ls l h. tt; spending = λ i ls a h. tt }
all-Stays allowed (j ∷ got) =
    let one = IsSpent-Stays allowed j in
    let more = all-Stays allowed got in
    record {
      lending = λ ls l h. (one.lending ls l h.0, more.lending ls l h.1);
      spending = λ i ls a h. (one.spending i ls a h.0, more.spending i ls a h.1);
    }

acquire-Lends :
    (skip : Bool) (now later : ℕ) (model sid : Text) (excluded : List Text) (s : System)
    (a : Account) (r : ℕ)
    → (acquire skip now later model sid excluded s).1 ≡ granted a r
    → Lends a.id (length s.leases) (acquire skip now later model sid excluded s).0.leases
unfolding acquire
acquire-Lends skip now later model sid excluded s a r e =
    let l : Lease = record { account_id = a.id; slot = r; held = true } in
    subst (λ q. Lends a.id (length s.leases) (lend s.leases q)) (sym e)
      (l, get_elem-last s.leases l, refl, refl)

-- What holds of the closures after selectAccount.
abbrev pub Good : (List Lease → Type 0) → System × Selection → Type 0
Good P (t, selects a i) = P t.leases × Lends a.id i t.leases
Good P (t, refuses e) = P t.leases

settle-Good :
    (P : List Lease → Type 0) (i : ℕ) (round : System × Selected) (rest : System × Selection)
    → P round.0.leases
    → ((a : Account) (r : ℕ) → round.1 ≡ granted a r → Lends a.id i round.0.leases)
    → Good P rest
    → Good P (settle i round rest)
unfolding settle
settle-Good P i (t, granted a r) rest h new more = (h, new a r refl)
settle-Good P i (t, all_busy) rest h new more = more
settle-Good P i (t, unavailable d) rest h new more = h

pub select_account-Good :
    (P : List Lease → Type 0) (model sid : Text) (excluded : List Text) (rounds : List Round)
    (s : System)
    → Stays (λ i. true) P
    → P s.leases
    → Good P (select_account model sid excluded rounds s)
unfolding select_account
select_account-Good P model sid excluded [] s stays h = h
select_account-Good P model sid excluded (w ∷ ws) s stays h = elim (Bool-cases w.alive) [
  | inr out ↦ from (t, refuses context_ended) (ground (arith, out)) now
  | inl on ↦ elim (Option-cases w.listing) [
    | inl lost ↦ from (t, refuses store_failed) (ground (arith, on, lost)) now
    | inr ((accounts, version), read) ↦
        let u = on_pool t (load_snapshot accounts version t.pool) in
        let round = acquire w.skip_expired w.now w.later model sid excluded u in
        let after_round : P round.0.leases =
          acquire-Stays stays w.skip_expired w.now w.later model sid excluded u now in
        from (settle (length u.leases) round (select_account model sid excluded ws round.0))
          (ground (arith, on, read))
          (settle-Good P (length u.leases) round _ after_round
            (acquire-Lends w.skip_expired w.now w.later model sid excluded u)
            (select_account-Good P model sid excluded ws round.0 stays after_round))
  ]
]
  where
    t : System
    t = run w.meanwhile s

    now : P t.leases
    now = run-Stays P stays w.meanwhile s h

    from :
        (r : System × Selection)
        → select_account model sid excluded (w ∷ ws) s ≡ r
        → Good P r
        → Good P (select_account model sid excluded (w ∷ ws) s)
    from r e = subst (Good P) (sym e)
