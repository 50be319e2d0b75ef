-- ===== src/Pool/Slots.antt =====
-- The reservations of server/internal/pool/scheduler.go: a map from an account's id to a pointer.
-- The closure that gives a slot back keeps the pointer, so the cells stand in a heap of their own.
pub mod Laws
use antigravity2api.Base.{
  ℕ, ◌+◌, ◌-◌, Bool, true, false, ◌&&◌, not, List, [], ◌∷◌, Option, none, some, Text, text_eq,
  nat_beq, lookup, insert, if◌then◌else◌,
}

-- reservation
pub record Reservation : Type 0 where
  pub active : ℕ
  pub last : ℕ

abbrev pub vacant : Reservation
vacant = record { active = 0; last = 0 }

pub record Slots : Type 0 where
  pub reservations : List (Text × ℕ)
  pub cell : ℕ → Reservation
  pub next : ℕ

abbrev pub no_slots : Slots
no_slots = record { reservations = []; cell = λ r. vacant; next = 0 }

abbrev pub update : (ℕ → Reservation) → ℕ → Reservation → ℕ → Reservation
update cell r v q = if nat_beq r q then v else cell q

-- r := p.reservations[id]; if r == nil { r = &reservation{}; p.reservations[id] = r }
unfoldable pub slot_of : Text → Slots → Slots × ℕ
unfolding lookup insert
slot_of id s = elim (lookup id s.reservations) [
  | some r ↦ (s, r)
  | none ↦ (
    record {
      reservations = insert id s.next s.reservations;
      cell = update s.cell s.next vacant;
      next = s.next + 1;
    },
    s.next,
  )
]

-- chosen.last = p.sequence; chosen.active++
unfoldable pub occupy : ℕ → ℕ → Slots → Slots
occupy r sequence s = record s {
  cell = update s.cell r (record { active = (s.cell r).active + 1; last = sequence });
}

-- chosen.active--, which the invariant keeps away from 0.
unfoldable pub vacate : ℕ → Slots → Slots
vacate r s = record s {
  cell = update s.cell r (record { active = (s.cell r).active - 1; last = (s.cell r).last });
}

-- Without the entries of accounts that are gone and hold no request.
unfoldable pub prune_reservations :
    (Text → Bool) → (ℕ → Reservation) → List (Text × ℕ) → List (Text × ℕ)
prune_reservations live cell [] = []
prune_reservations live cell ((id, r) ∷ m) =
    let rest = prune_reservations live cell m in
    if not (live id) && nat_beq (cell r).active 0 then rest else (id, r) ∷ rest

unfoldable pub prune : (Text → Bool) → Slots → Slots
unfolding prune_reservations
prune live s = record s { reservations = prune_reservations live s.cell s.reservations }

-- What an account's reservation reads; an account with none yet reads as vacant.
unfoldable pub reading : Slots → Text → Reservation
unfolding lookup
reading s id = elim (lookup id s.reservations) [ some r ↦ s.cell r | none ↦ vacant ]
