-- ===== src/Convert/Signatures/Entries.antt =====
-- The list of cached signatures: its keys, its sizes, and what removing an element does.
use antigravity2api.Base.{
  ℕ, ◌+◌, ◌≡◌, refl, Bool-cases, inl, inr, ◌==◌, List, [], ◌∷◌, Option, none, some, Text, text_eq,
  text_beq_iff, nat_eq, nat_beq_iff, lookup, delete, delete_absent, Distinct, if◌then◌else◌, arith,
  ◌<◌,
}
use antigravity2api.Convert.Signatures.{CachedSignature, entry_size}

-- The address of the entry with the key.
unfoldable pub find : Text → List (ℕ × CachedSignature) → Option ℕ
find k [] = none
find k ((p, e) ∷ order) = if e.key == k then some p else find k order

unfoldable pub total : List (ℕ × CachedSignature) → ℕ
total [] = 0
total ((p, e) ∷ order) = entry_size e + total order

-- No two entries have the same key.
abbrev pub KeysDistinct : List (ℕ × CachedSignature) → Type 0
KeysDistinct [] = Unit
KeysDistinct ((p, e) ∷ order) = (find e.key order ≡ none) × KeysDistinct order

-- All addresses are handed out.
abbrev pub Below : ℕ → List (ℕ × CachedSignature) → Type 0
Below n [] = Unit
Below n ((p, e) ∷ order) = (p < n) × Below n order

pub Below-suc : (n : ℕ) (order : List (ℕ × CachedSignature)) → Below n order → Below (n + 1) order
Below-suc n [] h = tt
Below-suc n ((p, e) ∷ order) h = (omega (arith, h.0), Below-suc n order h.1)

pub lookup-Below :
    (n : ℕ) (order : List (ℕ × CachedSignature)) → Below n order → lookup n order ≡ none
unfolding lookup
lookup-Below n [] h = refl
lookup-Below n ((p, e) ∷ order) h = ground (arith, h.0, lookup-Below n order h.1)

pub lookup-lt :
    (p n : ℕ) (e : CachedSignature) (order : List (ℕ × CachedSignature))
    → Below n order
    → lookup p order ≡ some e
    → p < n
unfolding lookup
lookup-lt p n e [] h at = absurd (ground arith)
lookup-lt p n e ((q, f) ∷ order) h at =
    ground (arith, h.0, nat_beq_iff q p, lookup-lt p n e order h.1)

pub find-lookup :
    (k : Text) (p : ℕ) (order : List (ℕ × CachedSignature))
    → Distinct order
    → find k order ≡ some p
    → (e : CachedSignature) × (lookup p order ≡ some e) × (e.key ≡ k)
unfolding find lookup
find-lookup k p [] d h = absurd (ground arith)
find-lookup k p ((q, f) ∷ order) d h = elim (Bool-cases (f.key == k)) [
  | inl here ↦ (f, ground (arith, nat_beq_iff q p), ground (arith, text_beq_iff f.key k))
  | inr there ↦
      let (e, at, same) = find-lookup k p order d.1 (rw there at h) in
      (e, ground (arith, nat_beq_iff q p), same)
]

pub lookup-find :
    (p : ℕ) (e : CachedSignature) (order : List (ℕ × CachedSignature))
    → KeysDistinct order
    → lookup p order ≡ some e
    → find e.key order ≡ some p
unfolding find lookup
lookup-find p e [] d h = absurd (ground arith)
lookup-find p e ((q, f) ∷ order) d h =
    ground (arith, text_beq_iff f.key e.key, nat_beq_iff q p, lookup-find p e order d.1)

module _ (p : ℕ) where
  pub total-delete :
      (e : CachedSignature) (order : List (ℕ × CachedSignature))
      → Distinct order
      → lookup p order ≡ some e
      → total (delete p order) + entry_size e ≡ total order
  unfolding total delete lookup
  total-delete e [] d h = absurd (ground arith)
  total-delete e ((q, f) ∷ order) d h =
      ground (arith, nat_beq_iff q p, total-delete e order d.1, delete_absent p order)

  pub find-delete :
      (k : Text) (e : CachedSignature) (order : List (ℕ × CachedSignature))
      → Distinct order
      → KeysDistinct order
      → lookup p order ≡ some e
      → find k (delete p order) ≡ (if e.key == k then none else find k order)
  unfolding find delete lookup
  find-delete k e [] d u h = absurd (ground arith)
  find-delete k e ((q, f) ∷ order) d u h = ground (
    arith,
    nat_beq_iff q p,
    text_beq_iff f.key k,
    text_beq_iff e.key k,
    text_beq_iff f.key e.key,
    find-delete k e order d.1 u.1,
    delete_absent p order,
    lookup-find p e order u.1,
  )

  pub delete-Below :
      (n : ℕ) (order : List (ℕ × CachedSignature)) → Below n order → Below n (delete p order)
  unfolding delete
  delete-Below n [] h = tt
  delete-Below n ((q, f) ∷ order) h = ground (arith, delete-Below n order h.1)

  pub find-delete-none :
      (k : Text) (order : List (ℕ × CachedSignature))
      → find k order ≡ none
      → find k (delete p order) ≡ none
  unfolding find delete
  find-delete-none k [] h = refl
  find-delete-none k ((q, f) ∷ order) h = ground (arith, find-delete-none k order)

  pub delete-KeysDistinct :
      (order : List (ℕ × CachedSignature)) → KeysDistinct order → KeysDistinct (delete p order)
  unfolding delete
  delete-KeysDistinct [] u = tt
  delete-KeysDistinct ((q, f) ∷ order) u =
      ground (arith, delete-KeysDistinct order u.1, find-delete-none f.key order u.0)
