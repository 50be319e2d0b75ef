-- ===== src/Pool/Slots/Laws.antt =====
-- What holds of the reservations, and what the operations do to it.
use antigravity2api.Base.{
  ℕ, ◌≤◌, ◌<◌, ◌≡◌, ◌≢◌, refl, ◌∙◌, Bool, true, ◌⊎◌, inl, inr, List, [], ◌∷◌, none, some, Text,
  text_eq, text_beq_iff, lookup, lookup-insert, insert-Distinct, Distinct, Option-cases, arith,
}
use antigravity2api.Pool.Slots.{
  Slots, Reservation, vacant, no_slots, slot_of, occupy, vacate, prune, prune_reservations, reading,
}

-- Every account has a cell of its own, and cells that are not handed out yet are vacant.
pub record IsWf (s : Slots) : Type 0 where
  pub distinct : Distinct s.reservations
  pub bounded : (id : Text) (r : ℕ) → lookup id s.reservations ≡ some r → r < s.next
  pub injective :
      (i j : Text) (r : ℕ)
      → lookup i s.reservations ≡ some r
      → lookup j s.reservations ≡ some r
      → i ≡ j
  pub fresh : (r : ℕ) → s.next ≤ r → s.cell r ≡ vacant

-- `t` has all the entries of `s`, the same cells, and the same reading of every account.
pub record Extends (s t : Slots) : Type 0 where
  pub keeps :
      (id : Text) (r : ℕ) → lookup id s.reservations ≡ some r → lookup id t.reservations ≡ some r
  pub same : (r : ℕ) → t.cell r ≡ s.cell r
  pub reads : (id : Text) → reading t id ≡ reading s id

pub Extends-refl : (s : Slots) → Extends s s
Extends-refl s = record { keeps = λ id r h. h; same = λ r. refl; reads = λ id. refl }

pub Extends-trans : {s t u : Slots} → Extends s t → Extends t u → Extends s u
Extends-trans a b = record {
  keeps = λ id r h. b.keeps id r (a.keeps id r h);
  same = λ r. b.same r ∙ a.same r;
  reads = λ id. b.reads id ∙ a.reads id;
}

pub no_slots-IsWf : IsWf no_slots
unfolding lookup
no_slots-IsWf = record {
  distinct = tt;
  bounded = λ id r h. absurd (ground arith);
  injective = λ i j r h k. absurd (ground arith);
  fresh = λ r h. refl;
}

module _ (id : Text) (s : Slots) (wf : IsWf s) where
  pub slot_of-lookup : lookup id (slot_of id s).0.reservations ≡ some (slot_of id s).1
  unfolding slot_of
  slot_of-lookup = ground (arith, lookup-insert id id s.next s.reservations, text_beq_iff id id)

  slot_of-keeps :
      (j : Text) (r : ℕ)
      → lookup j s.reservations ≡ some r
      → lookup j (slot_of id s).0.reservations ≡ some r
  unfolding slot_of
  slot_of-keeps j r h = ground (arith, lookup-insert id j s.next s.reservations, text_beq_iff id j)

  slot_of-same : (r : ℕ) → (slot_of id s).0.cell r ≡ s.cell r
  unfolding slot_of
  slot_of-same r = ground (arith, wf.fresh s.next (omega arith))

  slot_of-reads : (j : Text) → reading (slot_of id s).0 j ≡ reading s j
  unfolding slot_of reading
  slot_of-reads j = ground (
    arith,
    lookup-insert id j s.next s.reservations,
    text_beq_iff id j,
    wf.fresh s.next (omega arith),
  )

  pub slot_of-Extends : Extends s (slot_of id s).0
  slot_of-Extends = record { keeps = slot_of-keeps; same = slot_of-same; reads = slot_of-reads }

  -- The cell of the account is what the reading showed.
  pub slot_of-reading : (slot_of id s).0.cell (slot_of id s).1 ≡ reading s id
  unfolding slot_of reading
  slot_of-reading = ground arith

  slot_of-Distinct : Distinct (slot_of id s).0.reservations
  unfolding slot_of
  slot_of-Distinct = elim (Option-cases (lookup id s.reservations)) [
    | inl e ↦ rw (e, slot_of) (insert-Distinct id s.next s.reservations wf.distinct)
    | inr (r, e) ↦ rw (e, slot_of) wf.distinct
  ]

  slot_of-bounded :
      (j : Text) (r : ℕ)
      → lookup j (slot_of id s).0.reservations ≡ some r
      → r < (slot_of id s).0.next
  unfolding slot_of
  slot_of-bounded j r h = ground (arith, lookup-insert id j s.next s.reservations, wf.bounded j r)

  slot_of-injective :
      (i j : Text) (r : ℕ)
      → lookup i (slot_of id s).0.reservations ≡ some r
      → lookup j (slot_of id s).0.reservations ≡ some r
      → i ≡ j
  unfolding slot_of
  slot_of-injective i j r h k = ground (
    arith,
    lookup-insert id i s.next s.reservations,
    lookup-insert id j s.next s.reservations,
    text_beq_iff id i,
    text_beq_iff id j,
    wf.bounded i r,
    wf.bounded j r,
    wf.injective i j r,
  )

  slot_of-fresh : (r : ℕ) → (slot_of id s).0.next ≤ r → (slot_of id s).0.cell r ≡ vacant
  unfolding slot_of
  slot_of-fresh r h = ground (arith, wf.fresh r)

  pub slot_of-IsWf : IsWf (slot_of id s).0
  slot_of-IsWf = record {
    distinct = slot_of-Distinct;
    bounded = slot_of-bounded;
    injective = slot_of-injective;
    fresh = slot_of-fresh;
  }

-- A change of one cell that is handed out.
module _ (s : Slots) (r : ℕ) (used : r < s.next) (wf : IsWf s) where
  pub occupy-IsWf : (sequence : ℕ) → IsWf (occupy r sequence s)
  unfolding occupy
  occupy-IsWf sequence = record {
    distinct = wf.distinct;
    bounded = wf.bounded;
    injective = wf.injective;
    fresh = λ q h. ground (arith, wf.fresh q h);
  }

  pub vacate-IsWf : IsWf (vacate r s)
  unfolding vacate
  vacate-IsWf = record {
    distinct = wf.distinct;
    bounded = wf.bounded;
    injective = wf.injective;
    fresh = λ q h. ground (arith, wf.fresh q h);
  }

module _ (live : Text → Bool) (cell : ℕ → Reservation) where
  -- An account that is live or holds a request stays.
  prune-keeps :
      (id : Text) (r : ℕ) (m : List (Text × ℕ))
      → lookup id m ≡ some r
      → (live id ≡ true) ⊎ ((cell r).active ≢ 0)
      → lookup id (prune_reservations live cell m) ≡ some r
  unfolding lookup prune_reservations
  prune-keeps id r [] h k = absurd (ground arith)
  prune-keeps id r ((j, q) ∷ m) h k = ground (arith, text_beq_iff j id, prune-keeps id r m)

  prune-none :
      (id : Text) (m : List (Text × ℕ))
      → lookup id m ≡ none
      → lookup id (prune_reservations live cell m) ≡ none
  unfolding lookup prune_reservations
  prune-none id [] h = refl
  prune-none id ((j, q) ∷ m) h = ground (arith, prune-none id m)

  prune-Distinct : (m : List (Text × ℕ)) → Distinct m → Distinct (prune_reservations live cell m)
  unfolding prune_reservations
  prune-Distinct [] h = tt
  prune-Distinct ((j, q) ∷ m) h = ground (arith, prune-none j m, prune-Distinct m)

  prune-sub :
      (id : Text) (r : ℕ) (m : List (Text × ℕ))
      → Distinct m
      → lookup id (prune_reservations live cell m) ≡ some r
      → lookup id m ≡ some r
  unfolding lookup prune_reservations
  prune-sub id r [] d h = absurd (ground arith)
  prune-sub id r ((j, q) ∷ m) d h =
      ground (arith, text_beq_iff j id, prune-none id m, prune-sub id r m)

module _ (live : Text → Bool) (s : Slots) (wf : IsWf s) where
  pub prune-IsWf : IsWf (prune live s)
  unfolding prune
  prune-IsWf = record {
    distinct = prune-Distinct live s.cell s.reservations wf.distinct;
    bounded = λ id r h. wf.bounded id r (prune-sub live s.cell id r s.reservations wf.distinct h);
    injective = λ i j r h k.
        wf.injective i j r (prune-sub live s.cell i r s.reservations wf.distinct h)
          (prune-sub live s.cell j r s.reservations wf.distinct k);
    fresh = wf.fresh;
  }

  pub prune-keeps_held :
      (id : Text) (r : ℕ)
      → lookup id s.reservations ≡ some r
      → (s.cell r).active ≢ 0
      → lookup id (prune live s).reservations ≡ some r
  unfolding prune
  prune-keeps_held id r h k = prune-keeps live s.cell id r s.reservations h (inr k)
