-- ===== src/Pool/Scan/Choice.antt =====
-- Which account the whole loop picks.
use antigravity2api.Base.{
  ℕ, ◌≡◌, refl, sym, ap, ◌∙◌, Bool, true, false, ◌&&◌, ◌⊎◌, inl, inr, List, [], ◌∷◌, Option, some,
  ltb, Bool-cases,
}
use antigravity2api.Accounts.{Account}
use antigravity2api.Pool.Slots.{Slots, reading}
use antigravity2api.Pool.State.{ModelCandidate}
use antigravity2api.Pool.Scan.{Env, Scan, Standing, out, waits, ready, standing, act, visit, scan}
use antigravity2api.Pool.Scan.Laws.{Sound, visit-Sound}
use antigravity2api.Pool.Scan.Turn.{
  Each, Somewhere, Prevails, Improves, NotBound, Turn, is_ready, is_open, unchanged, consider-Turn,
}

pub Each-all :
    (P : Account → ModelCandidate → Type 0)
    → ((a : Account) (c : ModelCandidate) → P a c)
    → (accounts : List Account) (view : List ModelCandidate) → Each P accounts view
Each-all P f (a ∷ accounts) (c ∷ view) = (f a c, Each-all P f accounts view)
Each-all P f _ _ = tt

pub Each-map :
    {P Q : Account → ModelCandidate → Type 0}
    → ((a : Account) (c : ModelCandidate) → P a c → Q a c)
    → (accounts : List Account) (view : List ModelCandidate) → Each P accounts view
    → Each Q accounts view
Each-map f (a ∷ accounts) (c ∷ view) h = (f a c h.0, Each-map f accounts view h.1)
Each-map f _ _ h = tt

pub Somewhere-map :
    {P Q : Account → ModelCandidate → Type 0}
    → ((a : Account) (c : ModelCandidate) → P a c → Q a c)
    → (accounts : List Account) (view : List ModelCandidate) → Somewhere P accounts view
    → Somewhere Q accounts view
Somewhere-map f (a ∷ accounts) (c ∷ view) (inl h) = inl (f a c h)
Somewhere-map f (a ∷ accounts) (c ∷ view) (inr h) = inr (Somewhere-map f accounts view h)
Somewhere-map f [] _ h = elim h [ ]
Somewhere-map f (a ∷ accounts) [] h = elim h [ ]

-- The loop one turn at a time.
pub scan_stop :
    (e : Env) (a : Account) (c : ModelCandidate) (accounts : List Account)
    (view : List ModelCandidate) (st : Scan)
    → (visit e a c st).1 ≡ true
    → scan e (a ∷ accounts) (c ∷ view) st ≡ (visit e a c st).0
unfolding scan
scan_stop e a c accounts view st stop = rw stop

pub scan_more :
    (e : Env) (a : Account) (c : ModelCandidate) (accounts : List Account)
    (view : List ModelCandidate) (st : Scan)
    → (visit e a c st).1 ≡ false
    → scan e (a ∷ accounts) (c ∷ view) st ≡ scan e accounts view (visit e a c st).0
unfolding scan
scan_more e a c accounts view st more = rw more

pub scan_nil : (e : Env) (view : List ModelCandidate) (st : Scan) → scan e [] view st ≡ st
unfolding scan
scan_nil e view st = refl

pub scan_no_view : (e : Env) (accounts : List Account) (st : Scan) → scan e accounts [] st ≡ st
unfolding scan
scan_no_view e [] st = refl
scan_no_view e (a ∷ accounts) st = refl

module _ (e : Env) (s : Slots) where
  pub visit-Turn :
      (a : Account) (c : ModelCandidate) (st : Scan)
      → Sound e s st
      → NotBound e st.picked
      → Turn e s a (is_open e s a c) st.picked (visit e a c st).0.picked (visit e a c st).1
  unfolding visit act
  visit-Turn a c st h u = go (standing e a c)
    where
      go :
          (k : Standing)
          → Turn e s a
              (is_ready k && ltb (reading s a.id).active e.cap)
              st.picked
              (act e a st k).0.picked
              (act e a st k).1
      go out = unchanged e s a false st.picked u refl
      go (waits t) = unchanged e s a false st.picked u refl
      go ready = consider-Turn e s a st h u

  -- A bound pick prevails over every account.
  broken-Prevails :
      (a : Account) (may : Bool) (old new : Option (Account × ℕ))
      → Turn e s a may old new true
      → (b : Account) → Prevails e s new b
  broken-Prevails a may old new t b = let (r, p, bound) = t.broken refl in rw p (inl bound)

  -- The final pick prevails over every open account, and over what the first pick did.
  pub scan-Prevails :
      (accounts : List Account) (view : List ModelCandidate) (st : Scan)
      → Sound e s st
      → NotBound e st.picked
      → (final : Scan) → scan e accounts view st ≡ final
      → Improves e s st.picked final.picked
        × Each (λ a c. is_open e s a c ≡ true → Prevails e s final.picked a) accounts view
  scan-Prevails (a ∷ accounts) (c ∷ view) st h u final q =
      let t = visit-Turn a c st h u in
      elim (Bool-cases (visit e a c st).1) [
        | inl stop ↦
            let same : final.picked ≡ (visit e a c st).0.picked =
              ap (λ (x : Scan). x.picked) (sym q ∙ scan_stop e a c accounts view st stop) in
            let all : (b : Account) → Prevails e s final.picked b = λ b. rw same (
              broken-Prevails a (is_open e s a c) st.picked (visit e a c st).0.picked (rw stop at t)
                b) in
            ((λ b p. all b), ((λ f. all a), Each-all _ (λ b d f. all b) accounts view))
        | inr more ↦
            let (later, each) =
              scan-Prevails accounts view (visit e a c st).0 (visit-Sound e s a c st h)
                (t.unbound more) final (sym (scan_more e a c accounts view st more) ∙ q) in
            ((λ b p. later b (t.improves b p)), ((λ f. later a (t.covers f)), each))
      ]
  scan-Prevails [] view st h u final q = rw (← q, scan_nil e view st) ((λ b p. p), tt)
  scan-Prevails (a ∷ accounts) [] st h u final q =
      rw (← q, scan_no_view e (a ∷ accounts) st) ((λ b p. p), tt)

  -- The pick is the one before the loop, or an open account of the list.
  pub scan-origin :
      (accounts : List Account) (view : List ModelCandidate) (st : Scan)
      → Sound e s st
      → NotBound e st.picked
      → (final : Scan) → scan e accounts view st ≡ final
      → (final.picked ≡ st.picked)
        ⊎ Somewhere
            (λ a c. (is_open e s a c ≡ true) × ((r : ℕ) × (final.picked ≡ some (a, r))))
            accounts
            view
  scan-origin (a ∷ accounts) (c ∷ view) st h u final q =
      let t = visit-Turn a c st h u in
      elim (Bool-cases (visit e a c st).1) [
        | inl stop ↦
            let same : final.picked ≡ (visit e a c st).0.picked =
              ap (λ (x : Scan). x.picked) (sym q ∙ scan_stop e a c accounts view st stop) in
            elim t.origin [
              | inl p ↦ inl (same ∙ p)
              | inr (may, (r, p)) ↦ inr (inl (may, (r, same ∙ p)))
            ]
        | inr more ↦
            elim (scan-origin accounts view (visit e a c st).0 (visit-Sound e s a c st h)
              (t.unbound more) final (sym (scan_more e a c accounts view st more) ∙ q)) [
                | inl same ↦ elim t.origin [
                  | inl p ↦ inl (same ∙ p)
                  | inr (may, (r, p)) ↦ inr (inl (may, (r, same ∙ p)))
                ]
                | inr there ↦ inr (inr there)
              ]
      ]
  scan-origin [] view st h u final q =
      inl (ap (λ (x : Scan). x.picked) (sym q ∙ scan_nil e view st))
  scan-origin (a ∷ accounts) [] st h u final q =
      inl (ap (λ (x : Scan). x.picked) (sym q ∙ scan_no_view e (a ∷ accounts) st))
