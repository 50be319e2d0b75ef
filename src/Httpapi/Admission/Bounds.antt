-- ===== src/Httpapi/Admission/Bounds.antt =====
-- The counts of the channels against the phases of the requests.
use antigravity2api.Base.{
  ℕ, zero, suc, ◌+◌, ◌-◌, ◌*◌, ◌≤◌, ◌≡◌, refl, ◌⊎◌, inl, inr, sym, subst, Bool-cases, List, [], ◌∷◌,
  ◌++◌, Option, none, some, ltb, arith,
}
use antigravity2api.Httpapi.Admission.{
  Phase, queued, running, over, rejected, Gate, open_gate, Move, arrives, admitted, times_out,
  shut_out, finishes, phase_at, set_phase, arrive, admit, turn_away, finish, move, moves,
  active_requests, queued_requests,
}

-- How much a request takes of a channel.
abbrev pub waits : Phase → ℕ
waits queued = 1
waits _ = 0

abbrev pub runs : Phase → ℕ
runs running = 1
runs _ = 0

abbrev pub turned_away : Phase → ℕ
turned_away (rejected s) = 1
turned_away _ = 0

-- The sum over all requests.
unfoldable pub total : (Phase → ℕ) → List Phase → ℕ
total f [] = 0
total f (p ∷ ps) = f p + total f ps

total-append :
    (f : Phase → ℕ) (ps : List Phase) (q : Phase) → total f (ps ++ q ∷ []) ≡ total f ps + f q
unfolding total
total-append f [] q = omega arith
total-append f (p ∷ ps) q = omega (arith, total-append f ps q)

-- A request that is not over is there, and its share is replaced.
total-set_phase :
    (f : Phase → ℕ) (i : ℕ) (q : Phase) (ps : List Phase)
    → (f over ≡ 0)
    → (phase_at i ps ≡ queued) ⊎ (phase_at i ps ≡ running)
    → total f (set_phase i q ps) + f (phase_at i ps) ≡ total f ps + f q
unfolding total set_phase phase_at
total-set_phase f i q [] z (inl e) = absurd (ground (arith, e))
total-set_phase f i q [] z (inr e) = absurd (ground (arith, e))
total-set_phase f zero q (p ∷ ps) z e = omega arith
total-set_phase f (suc i) q (p ∷ ps) z e = omega (arith, total-set_phase f i q ps z e)

pub record Counted (max_requests : ℕ) (g : Gate) : Type 0 where
  pub pends : g.pending ≡ total waits g.phases + total runs g.phases
  pub admits : g.admission ≡ total runs g.phases
  pub rejects : g.rejections ≡ total turned_away g.phases
  pub room : g.admission ≤ max_requests
  pub queue : g.pending ≤ max_requests * 2

module _ (max_requests : ℕ) where
  arrive-Counted :
      (g : Gate) → Counted max_requests g → Counted max_requests (arrive max_requests g)
  unfolding arrive
  arrive-Counted g c = elim (Bool-cases (ltb g.pending (max_requests * 2))) [
    | inl room ↦
        let new : List Phase = g.phases ++ queued ∷ [] in
        let w = total-append waits g.phases queued in
        let r = total-append runs g.phases queued in
        let t = total-append turned_away g.phases queued in
        let is : arrive max_requests g ≡ record g { pending = g.pending + 1; phases = new } =
          ground (arith, room) in
        subst (Counted max_requests) (sym is) (record {
          pends = omega (arith, c.pends, w, r);
          admits = omega (arith, c.admits, r);
          rejects = omega (arith, c.rejects, t);
          room = c.room;
          queue = ground (arith, room);
        })
    | inr full ↦
        let q = rejected (some 1) in
        let w = total-append waits g.phases q in
        let r = total-append runs g.phases q in
        let t = total-append turned_away g.phases q in
        let is : arrive max_requests g
            ≡ record g { rejections = g.rejections + 1; phases = g.phases ++ q ∷ [] } =
          ground (arith, full) in
        subst (Counted max_requests) (sym is) (record {
          pends = omega (arith, c.pends, w, r);
          admits = omega (arith, c.admits, r);
          rejects = omega (arith, c.rejects, t);
          room = c.room;
          queue = c.queue;
        })
  ]

  admit-Counted :
      (i : ℕ) (g : Gate) → Counted max_requests g → Counted max_requests (admit max_requests i g)
  unfolding admit
  admit-Counted i g c = go (phase_at i g.phases) refl
    where
      go : (p : Phase) → phase_at i g.phases ≡ p → Counted max_requests (admit max_requests i g)
      go queued e = elim (Bool-cases (ltb g.admission max_requests)) [
        | inl room ↦
            let w = total-set_phase waits i running g.phases refl (inl e) in
            let r = total-set_phase runs i running g.phases refl (inl e) in
            let t = total-set_phase turned_away i running g.phases refl (inl e) in
            let is : admit max_requests i g
                ≡ record g { admission = g.admission + 1; phases = set_phase i running g.phases } =
              ground (arith, e, room) in
            subst (Counted max_requests) (sym is) (record {
              pends = ground (arith, c.pends, w, r, e);
              admits = ground (arith, c.admits, r, e);
              rejects = ground (arith, c.rejects, t, e);
              room = ground (arith, room);
              queue = c.queue;
            })
        | inr full ↦
            let is : admit max_requests i g ≡ g = ground (arith, e, full) in
            subst (Counted max_requests) (sym is) c
      ]
      go running e = rw (e, admit) c
      go over e = rw (e, admit) c
      go (rejected s) e = rw (e, admit) c

  turn_away-Counted :
      (retry_after : Option ℕ) (i : ℕ) (g : Gate)
      → Counted max_requests g
      → Counted max_requests (turn_away retry_after i g)
  unfolding turn_away
  turn_away-Counted retry_after i g c = go (phase_at i g.phases) refl
    where
      go : (p : Phase) → phase_at i g.phases ≡ p → Counted max_requests (turn_away retry_after i g)
      go queued e =
          let q = rejected retry_after in
          let w = total-set_phase waits i q g.phases refl (inl e) in
          let r = total-set_phase runs i q g.phases refl (inl e) in
          let t = total-set_phase turned_away i q g.phases refl (inl e) in
          let is : turn_away retry_after i g ≡ record g {
            pending = g.pending - 1;
            rejections = g.rejections + 1;
            phases = set_phase i q g.phases;
          } =
            ground (arith, e) in
          subst (Counted max_requests) (sym is) (record {
            pends = ground (arith, c.pends, w, r, e);
            admits = ground (arith, c.admits, r, e);
            rejects = ground (arith, c.rejects, t, e);
            room = c.room;
            queue = omega (arith, c.queue);
          })
      go running e = rw (e, turn_away) c
      go over e = rw (e, turn_away) c
      go (rejected s) e = rw (e, turn_away) c

  finish-Counted : (i : ℕ) (g : Gate) → Counted max_requests g → Counted max_requests (finish i g)
  unfolding finish
  finish-Counted i g c = go (phase_at i g.phases) refl
    where
      go : (p : Phase) → phase_at i g.phases ≡ p → Counted max_requests (finish i g)
      go running e =
          let w = total-set_phase waits i over g.phases refl (inr e) in
          let r = total-set_phase runs i over g.phases refl (inr e) in
          let t = total-set_phase turned_away i over g.phases refl (inr e) in
          let is : finish i g ≡ record g {
            pending = g.pending - 1;
            admission = g.admission - 1;
            phases = set_phase i over g.phases;
          } =
            ground (arith, e) in
          subst (Counted max_requests) (sym is) (record {
            pends = ground (arith, c.pends, w, r, e);
            admits = ground (arith, c.admits, r, e);
            rejects = ground (arith, c.rejects, t, e);
            room = omega (arith, c.room);
            queue = omega (arith, c.queue);
          })
      go queued e = rw (e, finish) c
      go over e = rw (e, finish) c
      go (rejected s) e = rw (e, finish) c

  move-Counted :
      (m : Move) (g : Gate) → Counted max_requests g → Counted max_requests (move max_requests m g)
  unfolding move
  move-Counted arrives g c = arrive-Counted g c
  move-Counted (admitted i) g c = admit-Counted i g c
  move-Counted (times_out i) g c = turn_away-Counted (some 1) i g c
  move-Counted (shut_out i) g c = turn_away-Counted none i g c
  move-Counted (finishes i) g c = finish-Counted i g c

  moves-Counted :
      (ms : List Move) (g : Gate)
      → Counted max_requests g
      → Counted max_requests (moves max_requests ms g)
  unfolding moves
  moves-Counted [] g c = c
  moves-Counted (m ∷ ms) g c = moves-Counted ms _ (move-Counted m g c)

  open-Counted : Counted max_requests open_gate
  unfolding open_gate total
  open-Counted = record {
    pends = refl;
    admits = refl;
    rejects = refl;
    room = omega arith;
    queue = omega arith;
  }

-- Whatever requests come, wait, run and leave, and in whatever order: at most as many run at once
-- as the configuration allows, and at most as many again wait or run besides; the two channels hold
-- exactly the requests that run, and that wait or run; and the diagnostics report exactly those
-- that run, that wait, and that were rejected.
pub moves-counts :
    (max_requests : ℕ) (ms : List Move)
    → let g = moves max_requests ms open_gate in
      (active_requests g ≡ total runs g.phases)
      × (queued_requests g ≡ total waits g.phases)
      × (g.rejections ≡ total turned_away g.phases)
      × (total runs g.phases ≤ max_requests)
      × (total waits g.phases + total runs g.phases ≤ max_requests * 2)
unfolding active_requests queued_requests
moves-counts max_requests ms =
    let c = moves-Counted max_requests ms open_gate (open-Counted max_requests) in
    (
      c.admits,
      omega (arith, c.pends, c.admits),
      c.rejects,
      omega (arith, c.admits, c.room),
      omega (arith, c.pends, c.queue),
    )
