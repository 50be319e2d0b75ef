-- ===== src/Pool/System/Ledger.antt =====
-- The closures that requests hold, against the counters in the cells.
use antigravity2api.Base.{
  ℕ, zero, suc, ◌+◌, ◌≤◌, ◌<◌, ◌≡◌, ◌≢◌, refl, Bool, true, ◌&&◌, List, [], ◌∷◌, ◌++◌, some, Text,
  text_eq, text_beq, nat_beq, lookup, get_elem?, All, if◌then◌else◌, arith,
}
use antigravity2api.Pool.Slots.{Slots, no_slots, occupy, vacate, prune}
use antigravity2api.Pool.Slots.Laws.{
  IsWf, no_slots-IsWf, occupy-IsWf, vacate-IsWf, prune-IsWf, prune-keeps_held, Extends,
}
use antigravity2api.Pool.Select.{capacity}
use antigravity2api.Pool.System.{Lease, System, spend}

-- The closures that still hold a slot.
unfoldable pub holders : ℕ → List Lease → ℕ
holders r [] = 0
holders r (l ∷ ls) =
    let rest = holders r ls in if l.held && nat_beq l.slot r then suc rest else rest

-- The requests that hold an account.
unfoldable pub held_by : Text → List Lease → ℕ
held_by id [] = 0
held_by id (l ∷ ls) =
    let rest = held_by id ls in if l.held && text_beq l.account_id id then suc rest else rest

abbrev pub Owns : Slots → Lease → Type 0
Owns s l = l.held ≡ true → lookup l.account_id s.reservations ≡ some l.slot

-- Each held closure points to the cell that the map has for its account, and the cells count them.
pub record Inv (cap : ℕ) (s : Slots) (leases : List Lease) : Type 0 where
  pub wf : IsWf s
  pub counted : (r : ℕ) → (s.cell r).active ≡ holders r leases
  pub owned : All (Owns s) leases
  pub capped : (r : ℕ) → (s.cell r).active ≤ cap

All-map {ℓ κ} :
    {A : Type ℓ} {P Q : A → Type κ} (f : (a : A) → P a → Q a) (xs : List A) → All P xs → All Q xs
All-map f [] h = tt
All-map f (x ∷ xs) h = (f x h.0, All-map f xs h.1)

All-append_one {ℓ κ} :
    {A : Type ℓ} (P : A → Type κ) (xs : List A) (x : A) → All P xs → P x → All P (xs ++ x ∷ [])
All-append_one P [] x h hx = (hx, tt)
All-append_one P (y ∷ xs) x h hx = (h.0, All-append_one P xs x h.1 hx)

holders-append :
    (r : ℕ) (ls : List Lease) (l : Lease)
    → holders r (ls ++ l ∷ []) ≡ holders r ls + holders r (l ∷ [])
unfolding holders
holders-append r [] l = omega arith
holders-append r (k ∷ ls) l = ground (arith, holders-append r ls l)

pub new-Inv : (cap : ℕ) → Inv cap no_slots []
unfolding holders
new-Inv cap = record {
  wf = no_slots-IsWf;
  counted = λ r. refl;
  owned = tt;
  capped = λ r. omega arith;
}

-- The scan leaves cells and entries as they are.
pub Inv-Extends :
    (cap : ℕ) (s t : Slots) (leases : List Lease)
    → Extends s t
    → IsWf t
    → Inv cap s leases
    → Inv cap t leases
Inv-Extends cap s t leases x wf h = record {
  wf = wf;
  counted = λ r. rw (x.same r) (h.counted r);
  owned = All-map (λ l o held. x.keeps l.account_id l.slot (o held)) leases h.owned;
  capped = λ r. rw (x.same r) (h.capped r);
}

module _ (cap : ℕ) (s : Slots) (leases : List Lease) (h : Inv cap s leases) where
  pub occupy-Inv :
      (id : Text) (r sequence : ℕ)
      → lookup id s.reservations ≡ some r
      → (s.cell r).active < cap
      → Inv cap
          (occupy r sequence s)
          (leases ++ (record { account_id = id; slot = r; held = true }) ∷ [])
  unfolding occupy holders
  occupy-Inv id r sequence e room = record {
    wf = occupy-IsWf s r (h.wf.bounded id r e) h.wf sequence;
    counted = λ q. ground (
      arith,
      h.counted q,
      holders-append q leases (record { account_id = id; slot = r; held = true }),
    );
    owned = All-append_one (Owns s) leases _ h.owned (λ _. e);
    capped = λ q. ground (arith, h.capped q);
  }

holders-spend :
    (i : ℕ) (ls : List Lease) (l : Lease) (r : ℕ)
    → get_elem? ls i ≡ some l
    → l.held ≡ true
    → holders r ls ≡ holders r (spend i ls) + (if nat_beq l.slot r then 1 else 0)
unfolding holders spend
holders-spend i [] l r e held = absurd (ground arith)
holders-spend zero (k ∷ ls) l r e held = ground arith
holders-spend (suc i) (k ∷ ls) l r e held = ground (arith, holders-spend i ls l r e held)

spend-owned : (s : Slots) (i : ℕ) (ls : List Lease) → All (Owns s) ls → All (Owns s) (spend i ls)
unfolding spend
spend-owned s i [] h = tt
spend-owned s zero (k ∷ ls) h = ((λ f. absurd (cc)), h.1)
spend-owned s (suc i) (k ∷ ls) h = (h.0, spend-owned s i ls h.1)

abbrev pub Invariant : System → Type 0
Invariant s = Inv (capacity s.pool) s.pool.slots s.leases

module _ (cap : ℕ) (s : Slots) (leases : List Lease) (h : Inv cap s leases) where
  held-slot : (i : ℕ) (l : Lease) → get_elem? leases i ≡ some l → l.held ≡ true → l.slot < s.next
  held-slot i l e held = h.wf.bounded l.account_id l.slot (pick i leases h.owned e)
    where
      pick :
          (i : ℕ) (ls : List Lease)
          → All (Owns s) ls
          → get_elem? ls i ≡ some l
          → lookup l.account_id s.reservations ≡ some l.slot
      pick i [] o e = absurd (cc)
      pick zero (k ∷ ls) o e = ground (arith, o.0)
      pick (suc i) (k ∷ ls) o e = pick i ls o.1 e

  pub vacate-Inv :
      (i : ℕ) (l : Lease)
      → get_elem? leases i ≡ some l
      → l.held ≡ true
      → Inv cap (vacate l.slot s) (spend i leases)
  unfolding vacate
  vacate-Inv i l e held = record {
    wf = vacate-IsWf s l.slot (held-slot i l e held) h.wf;
    counted = λ q. ground (arith, h.counted q, holders-spend i leases l q e held);
    owned = spend-owned s i leases h.owned;
    capped = λ q. ground (arith, h.capped q);
  }

  -- A held closure is counted in its cell.
  held-counted : (ls : List Lease) → All (λ l. l.held ≡ true → holders l.slot ls ≢ 0) ls
  unfolding holders
  held-counted [] = tt
  held-counted (k ∷ ls) =
      ((λ f. ground arith), All-map (λ l o held. ground (arith, o held)) ls (held-counted ls))

  pub prune-Inv : (lives : Text → Bool) → Inv cap (prune lives s) leases
  unfolding prune
  prune-Inv lives = record {
    wf = prune-IsWf lives s h.wf;
    counted = h.counted;
    owned = keep leases h.owned (held-counted leases);
    capped = h.capped;
  }
    where
      keep :
          (ls : List Lease)
          → All (Owns s) ls
          → All (λ l. l.held ≡ true → holders l.slot leases ≢ 0) ls
          → All (Owns (prune lives s)) ls
      keep [] o c = tt
      keep (l ∷ ls) o c = (
        (λ held.
            prune-keeps_held lives s h.wf l.account_id l.slot (o.0 held)
              (rw (h.counted l.slot) (c.0 held))),
        keep ls o.1 c.1,
      )
