-- ===== src/Pool/Scan/Laws.antt =====
-- What the scan of the accounts does to the reservations, and what it picks.
use antigravity2api.Base.{
  ℕ, ◌<◌, ◌≡◌, Bool, true, false, inl, inr, List, ◌∷◌, Option, none, some, text_eq, lookup, leb,
  Bool-cases, arith,
}
use antigravity2api.Accounts.{Account}
use antigravity2api.Pool.Slots.{Slots, slot_of}
use antigravity2api.Pool.Slots.Laws.{
  IsWf, Extends, Extends-refl, Extends-trans, slot_of-IsWf, slot_of-Extends, slot_of-lookup,
}
use antigravity2api.Pool.State.{ModelCandidate}
use antigravity2api.Pool.Scan.{
  Env, Scan, Standing, out, waits, ready, standing, consider, visit, scan, chosen, preferred,
  is_bound, start, act,
}

-- The reservation that was picked is the account's own and has room.
abbrev pub PickFits : Env → Slots → Option (Account × ℕ) → Type 0
PickFits e s none = Unit {0}
PickFits e s (some (a, r)) = (lookup a.id s.reservations ≡ some r) × ((s.cell r).active < e.cap)

-- What holds at each turn of the loop that began with the slots `s`.
pub record Sound (e : Env) (s : Slots) (st : Scan) : Type 0 where
  pub wf : IsWf st.slots
  pub extends : Extends s st.slots
  pub fits : PickFits e st.slots st.picked

PickFits-Extends :
    (e : Env) (s t : Slots) (picked : Option (Account × ℕ))
    → Extends s t
    → PickFits e s picked
    → PickFits e t picked
PickFits-Extends e s t none x h = tt
PickFits-Extends e s t (some (a, r)) x h = (x.keeps a.id r h.0, rw (x.same r) h.1)

module _ (e : Env) (a : Account) (s : Slots) (st : Scan) (h : Sound e s st) where
  grown : Slots
  grown = (slot_of a.id st.slots).0

  grown-fits : Extends st.slots grown × PickFits e grown st.picked
  unfolding grown
  grown-fits =
      let x = slot_of-Extends a.id st.slots h.wf in
      (x, PickFits-Extends e st.slots grown st.picked x h.fits)

  -- Any scan with the grown reservations and a pick that fits is sound.
  with_pick :
      (picked : Option (Account × ℕ)) (busy : Bool) (earliest : ℕ)
      → PickFits e grown picked
      → Sound e s (record { slots = grown; picked = picked; busy = busy; earliest = earliest })
  unfolding grown
  with_pick picked busy earliest f = record {
    wf = slot_of-IsWf a.id st.slots h.wf;
    extends = Extends-trans h.extends grown-fits.0;
    fits = f;
  }

  taken-fits :
      leb e.cap (grown.cell (slot_of a.id st.slots).1).active ≡ false
      → PickFits e grown (some (a, (slot_of a.id st.slots).1))
  unfolding grown
  taken-fits f = (slot_of-lookup a.id st.slots h.wf, ground arith)

  consider-Sound : Sound e s (consider e a st).0
  unfolding consider grown
  consider-Sound =
      let (s', r) = slot_of a.id st.slots in
      elim (Bool-cases (leb e.cap (s'.cell r).active)) [
        | inl full ↦ rw full (with_pick st.picked true st.earliest grown-fits.1)
        | inr room ↦ rw room (elim (Bool-cases (is_bound e.bound a.id)) [
          | inl bound ↦ rw bound (with_pick (some (a, r)) st.busy st.earliest (taken-fits room))
          | inr free ↦
              rw free
                (elim (Bool-cases (preferred (s'.cell r) (chosen (record st { slots = s' })))) [
                  | inl better ↦
                      rw better (with_pick (some (a, r)) st.busy st.earliest (taken-fits room))
                  | inr worse ↦ rw worse (with_pick st.picked st.busy st.earliest grown-fits.1)
                ])
        ])
      ]

module _ (e : Env) (s : Slots) where
  pub visit-Sound :
      (a : Account) (c : ModelCandidate) (st : Scan) → Sound e s st → Sound e s (visit e a c st).0
  unfolding visit
  visit-Sound a c st h = go (standing e a c)
    where
      go : (k : Standing) → Sound e s (act e a st k).0
      go out = h
      go (waits t) = record { wf = h.wf; extends = h.extends; fits = h.fits }
      go ready = consider-Sound e a s st h

  pub scan-Sound :
      (accounts : List Account) (view : List ModelCandidate) (st : Scan)
      → Sound e s st
      → Sound e s (scan e accounts view st)
  unfolding scan
  scan-Sound (a ∷ accounts) (c ∷ view) st h =
      let next = visit-Sound a c st h in
      elim (Bool-cases (visit e a c st).1) [
        | inl stop ↦ rw stop next
        | inr more ↦ rw more (scan-Sound accounts view (visit e a c st).0 next)
      ]
  scan-Sound _ _ st h = h

pub start-Sound : (e : Env) (s : Slots) → IsWf s → Sound e s (start s)
start-Sound e s wf = record { wf = wf; extends = Extends-refl s; fits = tt }
