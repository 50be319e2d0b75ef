-- ===== src/Pool/Scan/Waits.antt =====
-- What a scan that picks nobody reports: whether an account was busy, and the earliest instant at
-- which one may come back.
use antigravity2api.Base.{
  ℕ, ◌≤◌, ◌<◌, ◌≡◌, ◌≢◌, refl, sym, ap, ◌∙◌, Bool, true, false, ◌&&◌, ◌⊎◌, inl, inr, List, [], ◌∷◌,
  Option, none, some, leb, ltb, Bool-cases, arith,
}
use antigravity2api.Accounts.{Account}
use antigravity2api.Pool.Slots.{Slots, slot_of, reading}
use antigravity2api.Pool.Slots.Laws.{slot_of-reading}
use antigravity2api.Pool.State.{ModelCandidate}
use antigravity2api.Pool.Scan.{
  Env, Scan, Standing, out, waits, ready, standing, act, consider, visit, scan, is_bound, earlier,
  preferred, chosen,
}
use antigravity2api.Pool.Scan.Laws.{Sound, visit-Sound}
use antigravity2api.Pool.Scan.Turn.{Each, Somewhere, is_ready, is_open, chosen_some, NotBound}
use antigravity2api.Pool.Scan.Choice.{
  Each-all, visit-Turn, scan_stop, scan_more, scan_nil, scan_no_view,
}

-- An account that is ready and has no room.
abbrev pub is_full : Env → Slots → Account → ModelCandidate → Bool
is_full e s a c = is_ready (standing e a c) && leb e.cap (reading s a.id).active

-- An account that a wait brings back is back after the clock's reading.
standing-waits :
    (e : Env) (a : Account) (c : ModelCandidate) (t : ℕ) → standing e a c ≡ waits t → e.now < t
unfolding standing
standing-waits e a c t h = ground arith

-- The final instant against one account's standing.
abbrev pub Awaits : Standing → ℕ → Type 0
Awaits out earliest = Unit {0}
Awaits (waits t) earliest = (0 < earliest) × (earliest ≤ t)
Awaits ready earliest = Unit {0}

-- `y` is known and not later than a known `x`.
abbrev pub Sooner : ℕ → ℕ → Type 0
Sooner x y = 0 < x → (0 < y) × (y ≤ x)

earlier-Sooner : (x t : ℕ) → 0 < t → Sooner x (earlier x t) × (0 < earlier x t) × (earlier x t ≤ t)
unfolding earlier
earlier-Sooner x t h = ((λ p. ground arith), ground arith, ground arith)

earlier-one : (x t : ℕ) → (earlier x t ≡ x) ⊎ (earlier x t ≡ t)
unfolding earlier
earlier-one x t = ground arith

Awaits-Sooner : (k : Standing) (x y : ℕ) → Sooner x y → Awaits k x → Awaits k y
Awaits-Sooner out x y h a = tt
Awaits-Sooner (waits t) x y h a = let k = h a.0 in omega arith
Awaits-Sooner ready x y h a = tt

-- The report of a loop that has not picked: nobody is picked, or what it says of one account holds.
abbrev pub Reported : Env → Slots → Account → ModelCandidate → Scan → Type 0
Reported e s a c st =
    st.picked ≡ none
    → (is_open e s a c ≡ false)
      × (is_full e s a c ≡ true → st.busy ≡ true)
      × Awaits (standing e a c) st.earliest

-- What a turn keeps of an earlier report.
pub record Grows (old new : Scan) : Type 0 where
  pub picked : new.picked ≡ none → old.picked ≡ none
  pub busy : old.busy ≡ true → new.busy ≡ true
  pub sooner : Sooner old.earliest new.earliest

Grows-refl : (st : Scan) → Grows st st
Grows-refl st = record { picked = λ p. p; busy = λ b. b; sooner = λ p. omega arith }

Grows-trans : (x y z : Scan) → Grows x y → Grows y z → Grows x z
Grows-trans x y z f g = record {
  picked = λ p. f.picked (g.picked p);
  busy = λ b. g.busy (f.busy b);
  sooner = λ p. let (q, le) = f.sooner p in let (r, le') = g.sooner q in omega arith;
}

Reported-Grows :
    (e : Env) (s : Slots) (a : Account) (c : ModelCandidate) (old new : Scan)
    → Grows old new
    → Reported e s a c old
    → Reported e s a c new
Reported-Grows e s a c old new g h p =
    let (closed, busy, await) = h (g.picked p) in
    (closed, (λ f. g.busy (busy f)), Awaits-Sooner (standing e a c) _ _ g.sooner await)

module _ (e : Env) (s : Slots) (a : Account) (st : Scan) (h : Sound e s st) where
  -- A ready account is picked, or found full, or there is a pick already.
  consider-report :
      ((consider e a st).0.picked ≡ none
        → (leb e.cap (reading s a.id).active ≡ true) × ((consider e a st).0.busy ≡ true))
      × Grows st (consider e a st).0
      × ((consider e a st).0.earliest ≡ st.earliest)
      × ((consider e a st).0.busy ≡ true
          → (st.busy ≡ true) ⊎ (leb e.cap (reading s a.id).active ≡ true))
  unfolding consider preferred
  consider-report =
      let (t, r) = slot_of a.id st.slots in
      rw (← (slot_of-reading a.id st.slots h.wf ∙ h.extends.reads a.id))
        (elim (Bool-cases (leb e.cap (t.cell r).active)) [
          | inl full ↦ rw full (
            (λ p. (refl, refl)),
            record { picked = λ p. p; busy = λ b. refl; sooner = λ p. omega arith },
            refl,
            (λ b. inr refl),
          )
          | inr room ↦ rw room (elim (Bool-cases (is_bound e.bound a.id)) [
            | inl bound ↦ rw bound (taken (some (a, r)) cc)
            | inr free ↦
                rw free
                  (elim (Bool-cases (preferred (t.cell r) (chosen (record st { slots = t })))) [
                    | inl better ↦ rw better (taken (some (a, r)) cc)
                    | inr worse ↦ rw worse (taken st.picked (chosen_some e s a st h worse))
                  ])
          ])
        ])
    where
      -- A turn that ends with a pick has nothing to report.
      taken :
          (new : Option (Account × ℕ))
          → new ≢ none
          → (new ≡ none → (false ≡ true) × (st.busy ≡ true))
            × Grows st (record {
              slots = (slot_of a.id st.slots).0;
              picked = new;
              busy = st.busy;
              earliest = st.earliest;
            })
            × (st.earliest ≡ st.earliest)
            × (st.busy ≡ true → (st.busy ≡ true) ⊎ (false ≡ true))
      taken new some_new = (
        (λ p. absurd (some_new p)),
        record { picked = λ p. absurd (some_new p); busy = λ b. b; sooner = λ p. omega arith },
        refl,
        (λ b. inl b),
      )

module _ (e : Env) (s : Slots) (a : Account) (c : ModelCandidate) (st : Scan)
    (h : Sound e s st) where
  visit-report : Reported e s a c (visit e a c st).0 × Grows st (visit e a c st).0
  unfolding visit act
  visit-report = go (standing e a c) (standing-waits e a c)
    where
      go :
          (k : Standing)
          → ((t : ℕ) → k ≡ waits t → e.now < t)
          → ((act e a st k).0.picked ≡ none
              → ((is_ready k && ltb (reading s a.id).active e.cap) ≡ false)
                × ((is_ready k && leb e.cap (reading s a.id).active) ≡ true
                    → (act e a st k).0.busy ≡ true)
                × Awaits k (act e a st k).0.earliest)
            × Grows st (act e a st k).0
      go out w = (
        (λ p. (refl, (λ f. cc), tt)),
        record { picked = λ p. p; busy = λ b. b; sooner = λ p. omega arith },
      )
      go (waits t) w =
          let (sooner, pos, le) = earlier-Sooner st.earliest t (omega (arith, w t refl)) in
          (
            (λ p. (refl, (λ f. cc), (pos, le))),
            record { picked = λ p. p; busy = λ b. b; sooner = sooner },
          )
      go ready w =
          let (full, grows, same, busy) = consider-report e s a st h in
          ((λ p. (ground (arith, full p), (λ f. (full p).1), tt)), grows)

  -- A new instant is the account's own, and a new report of a full account is true.
  visit-origin :
      (((visit e a c st).0.earliest ≡ st.earliest)
        ⊎ (standing e a c ≡ waits (visit e a c st).0.earliest))
      × ((visit e a c st).0.busy ≡ true → (st.busy ≡ true) ⊎ (is_full e s a c ≡ true))
  unfolding visit act
  visit-origin = go (standing e a c)
    where
      go :
          (k : Standing)
          → (((act e a st k).0.earliest ≡ st.earliest) ⊎ (k ≡ waits (act e a st k).0.earliest))
            × ((act e a st k).0.busy ≡ true
                → (st.busy ≡ true) ⊎ ((is_ready k && leb e.cap (reading s a.id).active) ≡ true))
      go out = (inl refl, (λ b. inl b))
      go (waits t) = (
        elim (earlier-one st.earliest t) [ inl p ↦ inl p | inr p ↦ inr (ap waits (sym p)) ],
        (λ b. inl b),
      )
      go ready = let (full, grows, same, busy) = consider-report e s a st h in (inl same, busy)

module _ (e : Env) (s : Slots) where
  -- A scan that ends without a pick has seen every account, and reports them all.
  pub scan-report :
      (accounts : List Account) (view : List ModelCandidate) (st : Scan)
      → Sound e s st
      → NotBound e st.picked
      → (final : Scan) → scan e accounts view st ≡ final
      → Each (λ a c. Reported e s a c final) accounts view × Grows st final
  scan-report (a ∷ accounts) (c ∷ view) st h u final q =
      let t = visit-Turn e s a c st h u in
      let (one, grows) = visit-report e s a c st h in
      elim (Bool-cases (visit e a c st).1) [
        | inl stop ↦
            let end : final ≡ (visit e a c st).0 = sym q ∙ scan_stop e a c accounts view st stop in
            let (r, p, _) = t.broken stop in
            let some_pick : final.picked ≡ some (a, r) = ap (λ (x : Scan). x.picked) end ∙ p in
            (
              Each-all (λ b d. Reported e s b d final)
                  (λ b d n. absurd (let no_pick = sym n ∙ some_pick in cc)) (a ∷ accounts)
                  (c ∷ view),
              rw end grows,
            )
        | inr more ↦
            let (each, later) =
              scan-report accounts view (visit e a c st).0 (visit-Sound e s a c st h)
                (t.unbound more) final (sym (scan_more e a c accounts view st more) ∙ q) in
            ((Reported-Grows e s a c _ final later one, each), Grows-trans _ _ _ grows later)
      ]
  scan-report [] view st h u final q = (tt, rw (← q, scan_nil e view st) (Grows-refl st))
  scan-report (a ∷ accounts) [] st h u final q =
      (tt, rw (← q, scan_no_view e (a ∷ accounts) st) (Grows-refl st))

  pub scan-reported :
      (accounts : List Account) (view : List ModelCandidate) (st : Scan)
      → Sound e s st
      → (final : Scan) → scan e accounts view st ≡ final
      → ((final.earliest ≡ st.earliest)
          ⊎ Somewhere (λ a c. standing e a c ≡ waits final.earliest) accounts view)
        × (final.busy ≡ true
            → (st.busy ≡ true) ⊎ Somewhere (λ a c. is_full e s a c ≡ true) accounts view)
  scan-reported (a ∷ accounts) (c ∷ view) st h final q =
      let (early, busy) = visit-origin e s a c st h in
      elim (Bool-cases (visit e a c st).1) [
        | inl stop ↦
            let end : final ≡ (visit e a c st).0 = sym q ∙ scan_stop e a c accounts view st stop in
            let same = ap (λ (x : Scan). x.earliest) end in
            (
              elim early [ inl p ↦ inl (same ∙ p) | inr p ↦ inr (inl (p ∙ ap waits (sym same))) ],
              (λ b. elim (busy (sym (ap (λ (x : Scan). x.busy) end) ∙ b)) [
                | inl o ↦ inl o
                | inr f ↦ inr (inl f)
              ]),
            )
        | inr more ↦
            let (later, full) =
              scan-reported accounts view (visit e a c st).0 (visit-Sound e s a c st h) final
                (sym (scan_more e a c accounts view st more) ∙ q) in
            (
              elim later [
                | inl same ↦ elim early [
                  | inl p ↦ inl (same ∙ p)
                  | inr p ↦ inr (inl (p ∙ ap waits (sym same)))
                ]
                | inr there ↦ inr (inr there)
              ],
              (λ b. elim (full b) [
                | inl now_busy ↦ elim (busy now_busy) [ inl o ↦ inl o | inr f ↦ inr (inl f) ]
                | inr there ↦ inr (inr there)
              ]),
            )
      ]
  scan-reported [] view st h final q =
      let end : final ≡ st = sym q ∙ scan_nil e view st in
      (
        inl (ap (λ (x : Scan). x.earliest) end),
        (λ b. inl (sym (ap (λ (x : Scan). x.busy) end) ∙ b)),
      )
  scan-reported (a ∷ accounts) [] st h final q =
      let end : final ≡ st = sym q ∙ scan_no_view e (a ∷ accounts) st in
      (
        inl (ap (λ (x : Scan). x.earliest) end),
        (λ b. inl (sym (ap (λ (x : Scan). x.busy) end) ∙ b)),
      )
