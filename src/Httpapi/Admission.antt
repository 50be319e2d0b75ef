-- ===== src/Httpapi/Admission.antt =====
-- limitProxy of server/internal/httpapi/runtime.go, with the channels of initRuntime: how many
-- requests wait and run at once. A channel is the number of its entries. Every request is in a
-- phase; a move is what one request does next, and the moves of all requests come in any order. A
-- move that its request cannot make changes nothing.
pub mod Bounds
use antigravity2api.Base.{
  ℕ, zero, suc, ◌+◌, ◌-◌, ◌*◌, Bool, List, [], ◌∷◌, ◌++◌, Option, none, some, ltb, max,
  if◌then◌else◌,
}

-- What a request is told: 503, with a Retry-After of so many seconds or none.
pub data Phase : Type 0 where
  queued running over : Phase
  rejected : Option ℕ → Phase

pub record Gate : Type 0 where
  pub pending : ℕ
  pub admission : ℕ
  pub rejections : ℕ
  pub phases : List Phase

unfoldable pub open_gate : Gate
open_gate = record { pending = 0; admission = 0; rejections = 0; phases = [] }

pub data Move : Type 0 where
  arrives : Move
  admitted : ℕ → Move
  times_out : ℕ → Move
  shut_out : ℕ → Move
  finishes : ℕ → Move

-- The phase of a request; one that has not come is over.
unfoldable pub phase_at : ℕ → List Phase → Phase
phase_at i [] = over
phase_at zero (p ∷ ps) = p
phase_at (suc i) (p ∷ ps) = phase_at i ps

unfoldable pub set_phase : ℕ → Phase → List Phase → List Phase
set_phase i q [] = []
set_phase zero q (p ∷ ps) = q ∷ ps
set_phase (suc i) q (p ∷ ps) = p ∷ set_phase i q ps

-- The first select: a place among the pending requests, or none.
unfoldable pub arrive : ℕ → Gate → Gate
arrive max_requests g =
    if ltb g.pending (max_requests * 2)
    then record g { pending = g.pending + 1; phases = g.phases ++ queued ∷ [] }
    else record g { rejections = g.rejections + 1; phases = g.phases ++ rejected (some 1) ∷ [] }

-- The second select, where the channel of admissions has room.
unfoldable pub admit : ℕ → ℕ → Gate → Gate
admit max_requests i g = elim (phase_at i g.phases) [
  | queued ↦
      if ltb g.admission max_requests
      then record g { admission = g.admission + 1; phases = set_phase i running g.phases }
      else g
  | _ ↦ g
]

-- The second select, where the wait or the server has ended; the deferred receive gives the place
-- among the pending requests back.
unfoldable pub turn_away : Option ℕ → ℕ → Gate → Gate
turn_away retry_after i g = elim (phase_at i g.phases) [
  | queued ↦ record g {
    pending = g.pending - 1;
    rejections = g.rejections + 1;
    phases = set_phase i (rejected retry_after) g.phases;
  }
  | _ ↦ g
]

-- The handler has returned, and both deferred receives run.
unfoldable pub finish : ℕ → Gate → Gate
finish i g = elim (phase_at i g.phases) [
  | running ↦ record g {
    pending = g.pending - 1;
    admission = g.admission - 1;
    phases = set_phase i over g.phases;
  }
  | _ ↦ g
]

unfoldable pub move : ℕ → Move → Gate → Gate
move max_requests arrives g = arrive max_requests g
move max_requests (admitted i) g = admit max_requests i g
move max_requests (times_out i) g = turn_away (some 1) i g
move max_requests (shut_out i) g = turn_away none i g
move max_requests (finishes i) g = finish i g

unfoldable pub moves : ℕ → List Move → Gate → Gate
moves max_requests [] g = g
moves max_requests (m ∷ ms) g = moves max_requests ms (move max_requests m g)

-- What diagnostics reports: active_requests and queued_requests.
unfoldable pub active_requests : Gate → ℕ
active_requests g = g.admission

unfoldable pub queued_requests : Gate → ℕ
queued_requests g = max 0 (g.pending - g.admission)
