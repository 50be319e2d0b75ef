-- ===== src/Examples/Admission.antt =====
-- Requests at the gate of a server that runs one at a time.
use antigravity2api.Base.{◌+◌, ◌*◌, ◌≤◌, ◌≡◌, refl, List, [], ◌∷◌, some}
use antigravity2api.Httpapi.Admission.{
  running, over, rejected, open_gate, Move, arrives, admitted, finishes, phase_at, set_phase,
  arrive, admit, finish, move, moves, active_requests, queued_requests,
}
use antigravity2api.Httpapi.Admission.Bounds.{waits, runs, turned_away, total, moves-counts}

-- The third request finds the queue full; the second is let in when the first has left.
abbrev busy : List Move
busy = arrives ∷ arrives ∷ arrives ∷ admitted 0 ∷ admitted 1 ∷ finishes 0 ∷ admitted 1 ∷ []

busy_run : moves 1 busy open_gate ≡ record {
  pending = 1;
  admission = 1;
  rejections = 1;
  phases = over ∷ running ∷ rejected (some 1) ∷ [];
}
unfolding moves move open_gate arrive admit finish phase_at set_phase
busy_run = refl

moves-counts_example :
    let g = moves 1 busy open_gate in
    (active_requests g ≡ total runs g.phases)
    × (queued_requests g ≡ total waits g.phases)
    × (g.rejections ≡ total turned_away g.phases)
    × (total runs g.phases ≤ 1)
    × (total waits g.phases + total runs g.phases ≤ 1 * 2)
moves-counts_example = moves-counts 1 busy
