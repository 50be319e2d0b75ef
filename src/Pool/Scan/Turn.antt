-- ===== src/Pool/Scan/Turn.antt =====
-- One turn of the loop over the accounts: how the pick changes.
use antigravity2api.Base.{
  ℕ, ◌≤◌, ◌<◌, ◌≡◌, ◌≢◌, refl, ◌∙◌, Bool, true, false, ◌&&◌, ◌⊎◌, inl, inr, List, ◌∷◌, Option, none,
  some, Text, text_eq, lookup, leb, ltb, Bool-cases, arith,
}
use antigravity2api.Accounts.{Account}
use antigravity2api.Pool.Slots.{Slots, Reservation, slot_of, reading}
use antigravity2api.Pool.Slots.Laws.{slot_of-Extends, slot_of-reading}
use antigravity2api.Pool.State.{ModelCandidate}
use antigravity2api.Pool.Scan.{
  Env, Scan, Standing, out, waits, ready, standing, consider, chosen, preferred, is_bound,
}
use antigravity2api.Pool.Scan.Laws.{Sound, PickFits}

abbrev pub is_ready : Standing → Bool
is_ready out = false
is_ready (waits t) = false
is_ready ready = true

-- An account that the scan may pick: ready, and below the cap.
abbrev pub is_open : Env → Slots → Account → ModelCandidate → Bool
is_open e s a c = is_ready (standing e a c) && ltb (reading s a.id).active e.cap

-- The order of preference: fewer requests, then the earlier last use.
abbrev pub AtMost : Reservation → Reservation → Type 0
AtMost x y = (x.active < y.active) ⊎ ((x.active ≡ y.active) × (x.last ≤ y.last))

-- The pick against one account: the pick is bound, or that account is neither bound nor better.
abbrev pub Prevails : Env → Slots → Option (Account × ℕ) → Account → Type 0
Prevails e s none b = ⊥
Prevails e s (some (a, r)) b =
    (is_bound e.bound a.id ≡ true)
    ⊎ (AtMost (reading s a.id) (reading s b.id) × (is_bound e.bound b.id ≡ false))

-- A statement about each account with its candidate, and about one of them.
abbrev pub Each : (Account → ModelCandidate → Type 0) → List Account → List ModelCandidate → Type 0
Each P (a ∷ accounts) (c ∷ view) = P a c × Each P accounts view
Each P _ _ = Unit {0}

abbrev pub Somewhere :
    (Account → ModelCandidate → Type 0) → List Account → List ModelCandidate → Type 0
Somewhere P (a ∷ accounts) (c ∷ view) = P a c ⊎ Somewhere P accounts view
Somewhere P _ _ = ⊥

preferred-AtMost : (x y : Reservation) → preferred x (some y) ≡ true → AtMost x y
unfolding preferred
preferred-AtMost x y h = ground arith

kept_AtMost : (x y : Reservation) → preferred x (some y) ≡ false → AtMost y x
unfolding preferred
kept_AtMost x y h = ground arith

AtMost-trans : (x y z : Reservation) → AtMost x y → AtMost y z → AtMost x z
AtMost-trans x y z h k = omega arith

-- What one turn of the loop does to the pick.
abbrev pub Improves : Env → Slots → Option (Account × ℕ) → Option (Account × ℕ) → Type 0
Improves e s old new = (b : Account) → Prevails e s old b → Prevails e s new b

module _ (e : Env) (s : Slots) (a : Account) (st : Scan) (h : Sound e s st) where
  -- The cell that the turn looks at shows the account's reading.
  cell-reading : (slot_of a.id st.slots).0.cell (slot_of a.id st.slots).1 ≡ reading s a.id
  cell-reading = slot_of-reading a.id st.slots h.wf ∙ h.extends.reads a.id

  -- So does the cell of what is picked already.
  picked-reading :
      (b : Account) (r : ℕ)
      → st.picked ≡ some (b, r)
      → (slot_of a.id st.slots).0.cell r ≡ reading s b.id
  unfolding reading
  picked-reading b r p =
      let x = slot_of-Extends a.id st.slots h.wf in
      let fits : PickFits e st.slots (some (b, r)) = rw p at h.fits in
      x.same r ∙ reading_of_lookup b.id r fits.0 ∙ h.extends.reads b.id
    where
      reading_of_lookup :
          (id : Text) (q : ℕ)
          → lookup id st.slots.reservations ≡ some q
          → st.slots.cell q ≡ reading st.slots id
      reading_of_lookup id q l = rw (l, reading)

-- While the loop goes on, the pick is not the bound account.
abbrev pub NotBound : Env → Option (Account × ℕ) → Type 0
NotBound e none = Unit {0}
NotBound e (some (a, r)) = is_bound e.bound a.id ≡ false

-- What one turn at the account `a` does to the pick; `stop` says that the loop breaks.
pub record Turn (e : Env) (s : Slots) (a : Account) (may : Bool) (old new : Option (Account × ℕ))
    (stop : Bool) : Type 0 where
  pub improves : (b : Account) → Prevails e s old b → Prevails e s new b
  pub covers : may ≡ true → Prevails e s new a
  pub origin : (new ≡ old) ⊎ ((may ≡ true) × ((r : ℕ) × (new ≡ some (a, r))))
  pub unbound : stop ≡ false → NotBound e new
  pub broken : stop ≡ true → (r : ℕ) × (new ≡ some (a, r)) × (is_bound e.bound a.id ≡ true)

pub unchanged :
    (e : Env) (s : Slots) (a : Account) (may : Bool) (old : Option (Account × ℕ))
    → NotBound e old
    → may ≡ false
    → Turn e s a may old old false
unchanged e s a may old u m = record {
  improves = λ b h. h;
  covers = λ f. cc;
  origin = inl refl;
  unbound = λ f. u;
  broken = λ f. cc;
}

take_bound :
    (e : Env) (s : Slots) (a : Account) (r : ℕ) (old : Option (Account × ℕ))
    → is_bound e.bound a.id ≡ true
    → Turn e s a true old (some (a, r)) true
take_bound e s a r old bound = record {
  improves = λ b h. inl bound;
  covers = λ f. inl bound;
  origin = inr (refl, (r, refl));
  unbound = λ f. cc;
  broken = λ f. (r, refl, bound);
}

-- The pick moves to an account that comes before the old pick.
take_better :
    (e : Env) (s : Slots) (a : Account) (r : ℕ) (old : Option (Account × ℕ))
    → NotBound e old
    → is_bound e.bound a.id ≡ false
    → ((b : Account) (q : ℕ) → old ≡ some (b, q) → AtMost (reading s a.id) (reading s b.id))
    → Turn e s a true old (some (a, r)) false
take_better e s a r old u free first = record {
  improves = better old u first;
  covers = λ f. inr (inr (refl, omega arith), free);
  origin = inr (refl, (r, refl));
  unbound = λ f. free;
  broken = λ f. cc;
}
  where
    better :
        (o : Option (Account × ℕ))
        → NotBound e o
        → ((b : Account) (q : ℕ) → o ≡ some (b, q) → AtMost (reading s a.id) (reading s b.id))
        → (b : Account) → Prevails e s o b
        → Prevails e s (some (a, r)) b
    better none n f b p = absurd p
    better (some (d, q)) n f b (inl k) = absurd (cc)
    better (some (d, q)) n f b (inr (k, free_b)) =
        inr (AtMost-trans (reading s a.id) (reading s d.id) (reading s b.id) (f d q refl) k, free_b)

keep_pick :
    (e : Env) (s : Slots) (a : Account) (old : Option (Account × ℕ))
    → NotBound e old
    → is_bound e.bound a.id ≡ false
    → old ≢ none
    → ((b : Account) (q : ℕ) → old ≡ some (b, q) → AtMost (reading s b.id) (reading s a.id))
    → Turn e s a true old old false
keep_pick e s a old u free some_old last = record {
  improves = λ b h. h;
  covers = λ f. covered old some_old last;
  origin = inl refl;
  unbound = λ f. u;
  broken = λ f. cc;
}
  where
    covered :
        (o : Option (Account × ℕ))
        → o ≢ none
        → ((b : Account) (q : ℕ) → o ≡ some (b, q) → AtMost (reading s b.id) (reading s a.id))
        → Prevails e s o a
    covered none n f = absurd (n refl)
    covered (some (d, q)) n f = inr (f d q refl, free)

module _ (e : Env) (s : Slots) (a : Account) (st : Scan) (h : Sound e s st) where
  chosen_first :
      let (t, r) = slot_of a.id st.slots in
      preferred (t.cell r) (chosen (record st { slots = t })) ≡ true
      → (b : Account) (q : ℕ) → st.picked ≡ some (b, q)
      → AtMost (reading s a.id) (reading s b.id)
  chosen_first better b q p =
      let (t, r) = slot_of a.id st.slots in
      let pr : preferred (t.cell r) (some (t.cell q)) ≡ true = rw p at better in
      let at : AtMost (t.cell r) (t.cell q) = preferred-AtMost (t.cell r) (t.cell q) pr in
      rw (cell-reading e s a st h, picked-reading e s a st h b q p) at at

  chosen_last :
      let (t, r) = slot_of a.id st.slots in
      preferred (t.cell r) (chosen (record st { slots = t })) ≡ false
      → (b : Account) (q : ℕ) → st.picked ≡ some (b, q)
      → AtMost (reading s b.id) (reading s a.id)
  chosen_last worse b q p =
      let (t, r) = slot_of a.id st.slots in
      let pr : preferred (t.cell r) (some (t.cell q)) ≡ false = rw p at worse in
      let at : AtMost (t.cell q) (t.cell r) = kept_AtMost (t.cell r) (t.cell q) pr in
      rw (cell-reading e s a st h, picked-reading e s a st h b q p) at at

  pub chosen_some :
      let (t, r) = slot_of a.id st.slots in
      preferred (t.cell r) (chosen (record st { slots = t })) ≡ false → st.picked ≢ none
  unfolding preferred
  chosen_some worse p = let pr = rw p at worse in cc

  pub consider-Turn :
      NotBound e st.picked
      → Turn e s a
          (ltb (reading s a.id).active e.cap)
          st.picked
          (consider e a st).0.picked
          (consider e a st).1
  unfolding consider
  consider-Turn u =
      let (t, r) = slot_of a.id st.slots in
      rw (← cell-reading e s a st h) (elim (Bool-cases (leb e.cap (t.cell r).active)) [
        | inl full ↦ rw full (unchanged e s a _ st.picked u (ground arith))
        | inr free_slot ↦
            let may : ltb (t.cell r).active e.cap ≡ true = ground arith in
            rw (may, free_slot)
              (elim (Bool-cases (is_bound e.bound a.id)) [
                | inl bound ↦ rw bound (take_bound e s a r st.picked bound)
                | inr free ↦
                    rw free
                      (elim (Bool-cases (preferred (t.cell r) (chosen (record st { slots = t })))) [
                        | inl better ↦
                            rw better (take_better e s a r st.picked u free (chosen_first better))
                        | inr worse ↦ rw worse (
                            keep_pick e s a st.picked u free (chosen_some worse)
                              (chosen_last worse))
                      ])
              ])
      ])
