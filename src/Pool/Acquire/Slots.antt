-- ===== src/Pool/Acquire/Slots.antt =====
-- The closures that Acquire is handed: which of them are spent, and which holds a slot.
use antigravity2api.Base.{
  ℕ, zero, suc, ◌≡◌, refl, sym, subst, ◌∙◌, Bool, true, false, not, List, [], ◌∷◌, ◌++◌, none, some,
  Text, nat_beq, length, get_elem?, Option-cases, Bool-cases, inl, inr, arith, if◌then◌else◌,
}
use antigravity2api.Pool.Select.{Selected, granted, all_busy, unavailable, select_round}
use antigravity2api.Pool.System.{
  Lease, System, spend, release, lend, acquire, Call, acquires, releases, loads, marks, clears,
  clears_before, step, run,
}
use antigravity2api.Pool.Acquire.{others}

-- A closure that has run.
abbrev pub IsSpent : ℕ → List Lease → Type 0
IsSpent i ls = (l : Lease) × (get_elem? ls i ≡ some l) × (l.held ≡ false)

-- A closure that holds a slot of the account.
abbrev pub Lends : Text → ℕ → List Lease → Type 0
Lends id i ls = (l : Lease) × (get_elem? ls i ≡ some l) × (l.held ≡ true) × (l.account_id ≡ id)

get_elem-append :
    (i : ℕ) (ls ms : List Lease) (l : Lease)
    → get_elem? ls i ≡ some l
    → get_elem? (ls ++ ms) i ≡ some l
get_elem-append i [] ms l e = absurd (ground (arith, e))
get_elem-append zero (k ∷ ls) ms l e = e
get_elem-append (suc i) (k ∷ ls) ms l e = get_elem-append i ls ms l e

pub get_elem-last : (ls : List Lease) (l : Lease) → get_elem? (ls ++ l ∷ []) (length ls) ≡ some l
get_elem-last [] l = refl
get_elem-last (k ∷ ls) l = get_elem-last ls l

pub spend-IsSpent :
    (i : ℕ) (ls : List Lease) (l : Lease) → get_elem? ls i ≡ some l → IsSpent i (spend i ls)
unfolding spend
spend-IsSpent i [] l e = absurd (ground (arith, e))
spend-IsSpent zero (k ∷ ls) l e = (record k { held = false }, refl, refl)
spend-IsSpent (suc i) (k ∷ ls) l e = spend-IsSpent i ls l e

spend-others :
    (i j : ℕ) (ls : List Lease) → nat_beq j i ≡ false → get_elem? (spend i ls) j ≡ get_elem? ls j
unfolding spend
spend-others i j [] h = refl
spend-others zero zero (k ∷ ls) h = absurd (ground (arith, h))
spend-others zero (suc j) (k ∷ ls) h = refl
spend-others (suc i) zero (k ∷ ls) h = refl
spend-others (suc i) (suc j) (k ∷ ls) h = spend-others i j ls (ground (arith, h))

spend_again : (i j : ℕ) (ls : List Lease) → IsSpent j ls → IsSpent j (spend i ls)
unfolding spend
spend_again i j [] (l, e, h) = absurd (ground (arith, e))
spend_again zero zero (k ∷ ls) s = (record k { held = false }, refl, refl)
spend_again zero (suc j) (k ∷ ls) s = s
spend_again (suc i) zero (k ∷ ls) s = s
spend_again (suc i) (suc j) (k ∷ ls) s = spend_again i j ls s

pub release-leases :
    (i : ℕ) (s : System) (l : Lease)
    → get_elem? s.leases i ≡ some l
    → (release i s).leases ≡ (if l.held then spend i s.leases else s.leases)
unfolding release
release-leases i s l e = ground (arith, e)

release-unknown : (i : ℕ) (s : System) → get_elem? s.leases i ≡ none → release i s ≡ s
unfolding release
release-unknown i s e = ground (arith, e)

-- What critical sections keep of the closures, if only those that are allowed are called.
pub record Stays (allowed : ℕ → Bool) (P : List Lease → Type 0) : Type 0 where
  pub lending : (ls : List Lease) (l : Lease) → P ls → P (ls ++ l ∷ [])
  pub spending : (i : ℕ) (ls : List Lease) → allowed i ≡ true → P ls → P (spend i ls)

pub IsSpent-Stays : (allowed : ℕ → Bool) (j : ℕ) → Stays allowed (IsSpent j)
IsSpent-Stays allowed j = record {
  lending = λ ls l (k, e, h). (k, get_elem-append j ls (l ∷ []) k e, h);
  spending = λ i ls a h. spend_again i j ls h;
}

pub Lends-Stays : (id : Text) (j : ℕ) → Stays (λ i. not (nat_beq j i)) (Lends id j)
Lends-Stays id j = record {
  lending = λ ls l (k, e, h, n). (k, get_elem-append j ls (l ∷ []) k e, h, n);
  spending = λ i ls a (k, e, h, n). (k, spend-others i j ls (ground (arith, a)) ∙ e, h, n);
}

module _ {allowed : ℕ → Bool} {P : List Lease → Type 0} (stays : Stays allowed P) where
  pub release-Stays : (i : ℕ) (s : System) → allowed i ≡ true → P s.leases → P (release i s).leases
  release-Stays i s a h = elim (Option-cases (get_elem? s.leases i)) [
    | inl e ↦ subst (λ (t : System). P t.leases) (sym (release-unknown i s e)) h
    | inr (l, e) ↦ subst P (sym (release-leases i s l e)) (pick l.held)
  ]
    where
      pick : (b : Bool) → P (if b then spend i s.leases else s.leases)
      pick true = stays.spending i s.leases a h
      pick false = h

  pub acquire-Stays :
      (skip : Bool) (now later : ℕ) (model sid : Text) (excluded : List Text) (s : System)
      → P s.leases
      → P (acquire skip now later model sid excluded s).0.leases
  unfolding acquire
  acquire-Stays skip now later model sid excluded s h =
      lent_one (select_round skip now later model sid excluded s.pool).1
    where
      lent_one : (r : Selected) → P (lend s.leases r)
      lent_one (granted a r) = stays.lending s.leases _ h
      lent_one all_busy = h
      lent_one (unavailable d) = h

  -- Every step but a call of a closure.
  step-Stays :
      (c : Call) (s : System)
      → ((i : ℕ) → c ≡ releases i → allowed i ≡ true)
      → P s.leases
      → P (step c s).leases
  unfolding step
  step-Stays (acquires skip now later model sid excluded) s a h =
      acquire-Stays skip now later model sid excluded s h
  step-Stays (releases i) s a h = release-Stays i s (a i refl) h
  step-Stays (loads accounts version) s a h = h
  step-Stays (marks now id model until) s a h = h
  step-Stays (clears id model) s a h = h
  step-Stays (clears_before id model started) s a h = h

pub run-Stays :
    (P : List Lease → Type 0)
    → Stays (λ i. true) P
    → (cs : List Call) (s : System) → P s.leases
    → P (run cs s).leases
unfolding run
run-Stays P stays [] s h = h
run-Stays P stays (c ∷ cs) s h =
    run-Stays P stays cs (step c s) (step-Stays stays c s (λ i e. refl) h)

pub others-Stays :
    (own : ℕ) (P : List Lease → Type 0)
    → Stays (λ i. not (nat_beq own i)) P
    → (cs : List Call) (s : System) → P s.leases
    → P (others own cs s).leases
unfolding others
others-Stays own P stays [] s h = h
others-Stays own P stays (releases i ∷ cs) s h = elim (Bool-cases (nat_beq own i)) [
  | inl mine ↦
      let is : others own (releases i ∷ cs) s ≡ others own cs s = ground (arith, mine) in
      subst (λ (t : System). P t.leases) (sym is) (others-Stays own P stays cs s h)
  | inr theirs ↦
      let is : others own (releases i ∷ cs) s ≡ others own cs (release i s) =
        ground (arith, theirs) in
      subst (λ (t : System). P t.leases) (sym is)
        (others-Stays own P stays cs (release i s)
          (release-Stays stays i s (ground (arith, theirs)) h))
]
others-Stays own P stays (acquires skip now later model sid excluded ∷ cs) s h =
    others-Stays own P stays cs _ (
      step-Stays stays (acquires skip now later model sid excluded) s
        (λ i e. absurd (ground (arith, e))) h)
others-Stays own P stays (loads accounts version ∷ cs) s h =
    others-Stays own P stays cs _
      (step-Stays stays (loads accounts version) s (λ i e. absurd (ground (arith, e))) h)
others-Stays own P stays (marks now id model until ∷ cs) s h =
    others-Stays own P stays cs _
      (step-Stays stays (marks now id model until) s (λ i e. absurd (ground (arith, e))) h)
others-Stays own P stays (clears id model ∷ cs) s h =
    others-Stays own P stays cs _
      (step-Stays stays (clears id model) s (λ i e. absurd (ground (arith, e))) h)
others-Stays own P stays (clears_before id model started ∷ cs) s h =
    others-Stays own P stays cs _
      (step-Stays stays (clears_before id model started) s (λ i e. absurd (ground (arith, e))) h)
