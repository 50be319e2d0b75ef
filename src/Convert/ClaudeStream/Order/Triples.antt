-- ===== src/Convert/ClaudeStream/Order/Triples.antt =====
-- Conditions before and after a step that may fail, and how they compose.
use antigravity2api.Base.{◌≡◌, refl, sym, subst, true, Option, none, some, arith, if◌then◌else◌}
use antigravity2api.Convert.Stream.{UpstreamError}
use antigravity2api.Convert.ClaudeStream.{Block, Writing, Step, ◌and_then◌, assign}
use antigravity2api.Convert.ClaudeStream.Protocol.{Phase, between, inside, check, is_open}

-- After a step: the state satisfies Q, or the error has left a state of E.
abbrev pub Ends : (Writing → Type 0) → (Writing → Type 0) → Writing × Option UpstreamError → Type 0
Ends E Q (t, none) = Q t
Ends E Q (t, some e) = E t

-- From P the step leads to Q, or fails with E.
pub record Triple (E P : Writing → Type 0) (f : Step) (Q : Writing → Type 0) : Type 0 where
  pub run : (s : Writing) → P s → Ends E Q (f s)

-- Frames after which an error may follow.
abbrev pub Open : Writing → Type 0
Open s = (p : Phase) × (check s.frames ≡ some p) × (is_open p ≡ true)

abbrev pub phase_of : Writing → Phase
phase_of s = elim s.block [ none ↦ between s.index | some b ↦ inside s.index b ]

abbrev pub Live : Writing → Type 0
Live s = (s.started ≡ true) × (check s.frames ≡ some (phase_of s))

abbrev pub At : Block → Writing → Type 0
At b s = (s.started ≡ true) × (s.block ≡ some b) × (check s.frames ≡ some (inside s.index b))

abbrev pub Closed : Writing → Type 0
Closed s = (s.started ≡ true) × (s.block ≡ none) × (check s.frames ≡ some (between s.index))

module _ {E P Q R : Writing → Type 0} {f g : Step} where
  infixr 4 ◌then◌
  pub ◌then◌ : Triple E P f Q → Triple E Q g R → Triple E P (f and_then g) R
  unfolding ◌and_then◌
  p then q = record { run = λ s h. go s (f s) refl (p.run s h) }
    where
      go :
          (s : Writing) (r : Writing × Option UpstreamError)
          → f s ≡ r
          → Ends E Q r
          → Ends E R ((f and_then g) s)
      go s (t, none) e k =
          let is : (f and_then g) s ≡ g t = ground (arith, e) in
          subst (Ends E R) (sym is) (q.run t k)
      go s (t, some x) e k =
          let is : (f and_then g) s ≡ (t, some x) = ground (arith, e) in subst (Ends E R) (sym is) k

-- A step is what it is equal to.
pub runs_as :
    (E Q : Writing → Type 0) (f : Step) (s : Writing) (r : Writing × Option UpstreamError)
    → f s ≡ r
    → Ends E Q r
    → Ends E Q (f s)
runs_as E Q f s r e = subst (Ends E Q) (sym e)

-- A stronger condition before, a weaker one after.
pub weaken :
    {E P Q : Writing → Type 0} (P' Q' : Writing → Type 0) (f : Step)
    → ((s : Writing) → P' s → P s)
    → ((s : Writing) → Q s → Q' s)
    → Triple E P f Q
    → Triple E P' f Q'
weaken {E} {P} {Q} P' Q' f before_it after_it p = record {
  run = λ s h. go (f s) (p.run s (before_it s h));
}
  where
    go : (r : Writing × Option UpstreamError) → Ends E Q r → Ends E Q' r
    go (t, none) k = after_it t k
    go (t, some x) k = k

pub assigns :
    (E P Q : Writing → Type 0) (f : Writing → Writing)
    → ((s : Writing) → P s → Q (f s))
    → Triple E P (assign f) Q
assigns E P Q f h = record { run = h }
