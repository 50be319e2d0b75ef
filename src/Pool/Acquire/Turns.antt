-- ===== src/Pool/Acquire/Turns.antt =====
-- Acquire gives back every slot but that of the account it returns.
use antigravity2api.Base.{
  ℕ, ◌+◌, ◌*◌, ◌≡◌, refl, sym, subst, ◌∙◌, Bool, true, false, not, List, [], ◌∷◌, none, some,
  Option, Text, nat_beq, is_empty, Bool-cases, inl, inr, arith,
}
use antigravity2api.Accounts.{Account}
use antigravity2api.Time.{second, unix}
use antigravity2api.Pool.Limits.{mark_limited}
use antigravity2api.Pool.Snapshot.{load_snapshot}
use antigravity2api.Pool.System.{System, release, on_pool}
use antigravity2api.Pool.Refresh.{Tokens, RefreshError}
use antigravity2api.Pool.Refresh.Rows.{Keyed}
use antigravity2api.Pool.Acquire.{
  others, Listing, Selection, selects, refuses, select_account, context_ended, store_failed, Visit,
  Errand, Acquired, lent, denied, Progress, continues, returns, look_up, disable_row,
  is_invalid_grant, give_up, revalidate, hand_over, confirm, use_slot, join, attempt_account,
  acquire_account, set_out,
}
use antigravity2api.Pool.Acquire.Checked.{Checked, look_up-Checked, disable_row-Keyed}
use antigravity2api.Pool.Acquire.Slots.{
  IsSpent, Lends, spend-IsSpent, release-leases, Lends-Stays, release-Stays, others-Stays,
}
use antigravity2api.Pool.Acquire.Handed.{AllSpent, all-Stays, Good, select_account-Good}

-- With no slot in hand.
abbrev Free : Errand → Type 0
Free s = AllSpent s.got s.system.leases × Keyed s.tokens

-- With the slot of an account, the newest that was handed out.
abbrev Holding : Text → ℕ → Errand → Type 0
Holding id i s =
    (rest : List ℕ) × (s.got ≡ i ∷ rest)
    × AllSpent rest s.system.leases
    × Lends id i s.system.leases
    × Keyed s.tokens

-- How Acquire ends: every closure it was handed is spent, but for that of the account it returns,
-- which is enabled and has a project.
abbrev pub Settled : Errand × Acquired → Type 0
Settled (t, denied e) = AllSpent t.got t.system.leases
Settled (t, lent a i) =
    (rest : List ℕ) × (t.got ≡ i ∷ rest)
    × AllSpent rest t.system.leases
    × Lends a.id i t.system.leases
    × (a.disabled ≡ false)
    × (is_empty a.project_id ≡ false)

abbrev Going : Errand × Progress → Type 0
Going (t, continues) = Free t
Going (t, returns r) = Settled (t, r)

-- The slot is given back.
freed :
    (id : Text) (i : ℕ) (rest : List ℕ) (s : System)
    → AllSpent rest s.leases
    → Lends id i s.leases
    → AllSpent (i ∷ rest) (release i s).leases
freed id i rest s h (l, e, held, n) = (
  subst (IsSpent i) (sym (release-leases i s l e ∙ ground (arith, held)))
      (spend-IsSpent i s.leases l e),
  release-Stays (all-Stays (λ j. true) rest) i s refl h,
)

freed_all :
    (id : Text) (i : ℕ) (s : Errand) → Holding id i s → AllSpent s.got (release i s.system).leases
freed_all id i s (rest, g, h, l, k) =
    subst (λ got. AllSpent got (release i s.system).leases) (sym g) (freed id i rest s.system h l)

module _ (v : Visit) (a : Account) (i : ℕ) (s : Errand) (h : Holding a.id i s) where
  abbrev free : System
  free = release i s.system

  give_up-Going : (e : RefreshError) → Going (give_up v a i e s)
  unfolding give_up
  give_up-Going e = elim (Bool-cases v.alive) [
    | inr out ↦
        from (record s { system = free }, returns (denied context_ended)) (ground (arith, out))
          spent
    | inl on ↦ elim (Bool-cases (is_invalid_grant e)) [
      | inl revoked ↦
          from
            (
              record s {
                system = free;
                tokens = disable_row v.disable_works a.id s.tokens;
                excluded = a.id ∷ s.excluded;
                last = some e;
              },
              continues,
            )
            (ground (arith, on, revoked))
            (spent, disable_row-Keyed v.disable_works a.id s.tokens h.4)
      | inr other ↦
          from
            (
              record s {
                system =
                    on_pool free
                      (mark_limited v.failed_at a.id [] (v.failed_at + 5 * second) free.pool);
                excluded = a.id ∷ s.excluded;
                last = some e;
              },
              continues,
            )
            (ground (arith, on, other)) (spent, h.4)
    ]
  ]
    where
      spent : AllSpent s.got free.leases
      spent = freed_all a.id i s h

      from : (r : Errand × Progress) → give_up v a i e s ≡ r → Going r → Going (give_up v a i e s)
      from r q = subst Going (sym q)

  hand_over-Going :
      (valid cooling : Bool)
      → a.disabled ≡ false
      → is_empty a.project_id ≡ false
      → Going (hand_over v a i valid cooling s)
  unfolding hand_over
  hand_over-Going false cooling on project = (freed_all a.id i s h, h.4)
  hand_over-Going true true on project = (freed_all a.id i s h, h.4)
  hand_over-Going true false on project = elim (Bool-cases v.still_alive) [
    | inr out ↦
        from (record s { system = free }, returns (denied context_ended)) (ground (arith, out))
          (freed_all a.id i s h)
    | inl alive ↦ elim (Bool-cases v.marks_used) [
      | inr lost ↦
          from (record s { system = free }, returns (denied store_failed))
            (ground (arith, alive, lost)) (freed_all a.id i s h)
      | inl marked ↦
          from (s, returns (lent (record a { last_used = unix v.used_at }) i))
            (ground (arith, alive, marked)) (h.0, h.1, h.2, h.3, on, project)
    ]
  ]
    where
      from :
          (r : Errand × Progress)
          → hand_over v a i true false s ≡ r
          → Going r
          → Going (hand_over v a i true false s)
      from r q = subst Going (sym q)

confirm-Going :
    (model : Text) (v : Visit) (a : Account) (i : ℕ) (s : Errand)
    → Holding a.id i s
    → a.disabled ≡ false
    → is_empty a.project_id ≡ false
    → Going (confirm model v a i s)
unfolding confirm
confirm-Going model v a i s h on project = go v.listing refl
  where
    go : (l : Listing) → v.listing ≡ l → Going (confirm model v a i s)
    go none e =
        let is : confirm model v a i s
            ≡ (record s { system = release i s.system }, returns (denied store_failed)) =
          ground (arith, e) in
        subst Going (sym is) (freed_all a.id i s h)
    go (some (accounts, version)) e =
        let p = load_snapshot accounts version s.system.pool in
        let found = revalidate model a.id v.skip_expired v.now p in
        let t = record s { system = on_pool s.system found.0 } in
        let is : confirm model v a i s ≡ hand_over v a i found.1 found.2 t = ground (arith, e) in
        subst Going (sym is) (hand_over-Going v a i t h found.1 found.2 on project)

use_slot-Going :
    (model : Text) (v : Visit) (a : Account) (i : ℕ) (s : Errand)
    → AllSpent s.got s.system.leases
    → Lends a.id i s.system.leases
    → Keyed s.tokens
    → Going (use_slot model v a i s)
unfolding use_slot
use_slot-Going model v a i s h l k =
    go (look_up v.refreshes v.projects a s.tokens) refl
      (look_up-Checked v.refreshes v.projects a s.tokens k)
  where
    looked : Tokens → Errand
    looked t = record s { system = others i v.between_calls s.system; tokens = t; got = i ∷ s.got }

    holding : (t : Tokens) (id : Text) → Keyed t → id ≡ a.id → Holding id i (looked t)
    holding t id kt same = (
      s.got,
      refl,
      others-Stays i (AllSpent s.got) (all-Stays (λ j. not (nat_beq i j)) s.got) v.between_calls
          s.system h,
      subst (λ n. Lends n i (looked t).system.leases) (sym same)
          (others-Stays i (Lends a.id i) (Lends-Stays a.id i) v.between_calls s.system l),
      kt,
    )

    go :
        (r : Tokens × Account × Option RefreshError)
        → look_up v.refreshes v.projects a s.tokens ≡ r
        → Checked a r
        → Going (use_slot model v a i s)
    go (t, b, some e) q (kt, same, good) =
        let is : use_slot model v a i s ≡ give_up v b i e (looked t) = ground (arith, q) in
        subst Going (sym is) (give_up-Going v b i (looked t) (holding t b.id kt same) e)
    go (t, b, none) q (kt, same, good) =
        let is : use_slot model v a i s ≡ confirm model v b i (looked t) = ground (arith, q) in
        subst Going (sym is) (
          confirm-Going model v b i (looked t) (holding t b.id kt same) (good refl).0 (good refl).1)

attempt_account-Going :
    (model sid : Text) (v : Visit) (s : Errand) → Free s → Going (attempt_account model sid v s)
unfolding attempt_account
attempt_account-Going model sid v s h =
    go (select_account model sid s.excluded v.rounds s.system) refl (
      select_account-Good (AllSpent s.got) model sid s.excluded v.rounds s.system
        (all-Stays (λ j. true) s.got) h.0)
  where
    go :
        (r : System × Selection)
        → select_account model sid s.excluded v.rounds s.system ≡ r
        → Good (AllSpent s.got) r
        → Going (attempt_account model sid v s)
    go (t, refuses e) q g =
        let is : attempt_account model sid v s
            ≡ (record s { system = t }, returns (denied (join e s.last))) =
          ground (arith, q) in
        subst Going (sym is) g
    go (t, selects a i) q g =
        let is : attempt_account model sid v s ≡ use_slot model v a i (record s { system = t }) =
          ground (arith, q) in
        subst Going (sym is) (use_slot-Going model v a i (record s { system = t }) g.0 g.1 h.1)

acquire_account-Settled :
    (model sid : Text) (visits : List Visit) (s : Errand)
    → Free s
    → Settled (acquire_account model sid visits s)
unfolding acquire_account
acquire_account-Settled model sid [] s h = h.0
acquire_account-Settled model sid (v ∷ vs) s h =
    go (attempt_account model sid v s) refl (attempt_account-Going model sid v s h)
      (λ t k. acquire_account-Settled model sid vs t k)
  where
    go :
        (r : Errand × Progress)
        → attempt_account model sid v s ≡ r
        → Going r
        → ((t : Errand) → Free t → Settled (acquire_account model sid vs t))
        → Settled (acquire_account model sid (v ∷ vs) s)
    go (t, continues) q g ih =
        let is : acquire_account model sid (v ∷ vs) s ≡ acquire_account model sid vs t =
          ground (arith, q) in
        subst Settled (sym is) (ih t g)
    go (t, returns r) q g ih =
        let is : acquire_account model sid (v ∷ vs) s ≡ (t, r) = ground (arith, q) in
        subst Settled (sym is) g

-- However the refreshes, the store and other requests turn out, if the table keeps its rows under
-- their own ids: when Acquire fails, every closure that it was handed on the way is spent; when it
-- returns an account, that account is enabled and has a project, the closure that comes with it holds
-- a slot of this account, and every other that Acquire was handed is spent.
pub acquire_account-slots :
    (model sid : Text) (visits : List Visit) (s : System) (t : Tokens) (excluded : List Text)
    → Keyed t
    → Settled (acquire_account model sid visits (set_out s t excluded))
unfolding set_out
acquire_account-slots model sid visits s t excluded k =
    acquire_account-Settled model sid visits (set_out s t excluded) (tt, k)
