-- ===== src/Pool/Bounded/Laws.antt =====
-- A bounded map stays within its bound, and loses no entry before its time but the nearest one.
use antigravity2api.Base.{
  ℕ, ◌+◌, ◌≤◌, ◌<◌, ◌≡◌, refl, sym, ◌∙◌, ap, true, false, ◌&&◌, ◌||◌, ◌==◌, ◌⊎◌, inl, inr, List, [],
  ◌∷◌, none, some, leb, Eq, length, lookup, Distinct, lookup-delete, delete-Distinct,
  length-delete-lt, Bool-cases, arith,
}
use antigravity2api.Time.{after, before, is_zero}
use antigravity2api.Pool.Bounded.{sweep, nearer, oldest_of, make_room}

-- A time that is known stays known, and only falls.
abbrev Falls : ℕ → ℕ → Type 0
Falls x y = 0 < x → (0 < y) × (y ≤ x)

module _ {ℓ} {K V : Type ℓ} ⦃e : Eq K⦄ (time : V → ℕ) (now : ℕ) where
  pub lookup-sweep :
      (k : K) (v : V) (m : List (K × V))
      → Distinct m
      → lookup k (sweep time now m) ≡ some v
      → (lookup k m ≡ some v) × (after (time v) now ≡ true)
  unfolding sweep lookup
  lookup-sweep k v [] d h = absurd (ground arith)
  lookup-sweep k v ((j, w) ∷ m) d h = ground (arith, e.beq_iff j k, lookup-sweep k v m d.1)

  pub sweep-keeps :
      (k : K) (v : V) (m : List (K × V))
      → lookup k m ≡ some v
      → after (time v) now ≡ true
      → lookup k (sweep time now m) ≡ some v
  unfolding sweep lookup
  sweep-keeps k v [] h a = absurd (ground arith)
  sweep-keeps k v ((j, w) ∷ m) h a = ground (arith, sweep-keeps k v m)

  sweep-none : (k : K) (m : List (K × V)) → lookup k m ≡ none → lookup k (sweep time now m) ≡ none
  unfolding sweep lookup
  sweep-none k [] h = refl
  sweep-none k ((j, w) ∷ m) h = ground (arith, sweep-none k m)

  pub sweep-Distinct : (m : List (K × V)) → Distinct m → Distinct (sweep time now m)
  unfolding sweep
  sweep-Distinct [] d = tt
  sweep-Distinct ((j, w) ∷ m) d = ground (arith, sweep-none j m, sweep-Distinct m)

  pub length-sweep-le : (m : List (K × V)) → length (sweep time now m) ≤ length m
  unfolding sweep
  length-sweep-le [] = omega arith
  length-sweep-le ((j, w) ∷ m) = ground (arith, length-sweep-le m)

  nearer-cases :
      (best : K × ℕ) (k : K) (w : V)
      → (nearer time now best k w ≡ best)
        ⊎ ((nearer time now best k w ≡ (k, time w)) × (after (time w) now ≡ true))
  unfolding nearer
  nearer-cases best k w =
      elim (Bool-cases (after (time w) now && (is_zero best.1 || before (time w) best.1))) [
        | inl t ↦ inr (rw t, ground arith)
        | inr f ↦ inl (rw f)
      ]

  nearer-Falls : (best : K × ℕ) (k : K) (w : V) → Falls best.1 (nearer time now best k w).1
  unfolding nearer
  nearer-Falls best k w h =
      elim (Bool-cases (after (time w) now && (is_zero best.1 || before (time w) best.1))) [
        | inl t ↦ rw t (ground arith)
        | inr f ↦ rw f (omega arith)
      ]

  nearer-covers :
      (best : K × ℕ) (k : K) (w : V)
      → after (time w) now ≡ true
      → (0 < (nearer time now best k w).1) × ((nearer time now best k w).1 ≤ time w)
  unfolding nearer
  nearer-covers best k w h =
      elim (Bool-cases (after (time w) now && (is_zero best.1 || before (time w) best.1))) [
        | inl t ↦ rw t (ground arith)
        | inr f ↦ rw f (ground arith)
      ]

  oldest-Falls : (best : K × ℕ) (m : List (K × V)) → Falls best.1 (oldest_of time now best m).1
  unfolding oldest_of
  oldest-Falls best [] h = omega arith
  oldest-Falls best ((k, w) ∷ m) h =
      let (p, le) = nearer-Falls best k w h in
      let (q, le') = oldest-Falls (nearer time now best k w) m p in omega arith

  -- An entry of the map that is still good.
  abbrev pub Good : K → ℕ → List (K × V) → Type ℓ
  Good k t m = (v : V) × (lookup k (sweep time now m) ≡ some v) × (time v ≡ t)

  Good-head :
      (k : K) (w : V) (m : List (K × V)) → after (time w) now ≡ true → Good k (time w) ((k, w) ∷ m)
  unfolding sweep lookup
  Good-head k w m h = (w, ground (arith, e.beq_iff k k), refl)

  Good-tail :
      (q j : K) (t : ℕ) (w : V) (m : List (K × V))
      → lookup j m ≡ none
      → Good q t m
      → Good q t ((j, w) ∷ m)
  unfolding sweep lookup
  Good-tail q j t w m n (v, l, eq) = (v, ground (arith, e.beq_iff j q, sweep-none j m n), eq)

  oldest-origin :
      (best : K × ℕ) (m : List (K × V))
      → Distinct m
      → (oldest_of time now best m ≡ best)
        ⊎ Good (oldest_of time now best m).0 (oldest_of time now best m).1 m
  unfolding oldest_of
  oldest-origin best [] d = inl refl
  oldest-origin best ((k, w) ∷ m) d = elim (oldest-origin (nearer time now best k w) m d.1) [
    | inl same ↦ elim (nearer-cases best k w) [
      | inl p ↦ inl (same ∙ p)
      | inr (p, good) ↦ inr (rw (same, p) (Good-head k w m good))
    ]
    | inr there ↦ inr (Good-tail _ k _ w m d.0 there)
  ]

  -- No good entry is nearer than the one found.
  oldest-least :
      (best : K × ℕ) (m : List (K × V)) (j : K) (v : V)
      → lookup j (sweep time now m) ≡ some v
      → (0 < (oldest_of time now best m).1) × ((oldest_of time now best m).1 ≤ time v)
  unfolding oldest_of sweep lookup
  oldest-least best [] j v l = absurd (cc)
  oldest-least best ((k, w) ∷ m) j v l =
      let later = oldest-least (nearer time now best k w) m j v in
      elim (Bool-cases (after (time w) now)) [
        | inl good ↦ elim (Bool-cases (k == j)) [
          | inl here ↦
              let same : w ≡ v = ground (arith, rw (good, here) at l) in
              let (p, le) = nearer-covers best k w good in
              let (q, le') = oldest-Falls (nearer time now best k w) m p in
              let at : time w ≡ time v = ap time same in omega arith
          | inr there ↦ later (ground arith)
        ]
        | inr over ↦ later (ground arith)
      ]

  some_entry : (m : List (K × V)) → 0 < length m → (k : K) × (v : V) × (lookup k m ≡ some v)
  unfolding lookup
  some_entry [] h = absurd (omega arith)
  some_entry ((k, w) ∷ m) h = (k, w, ground (arith, e.beq_iff k k))

  -- Where an entry is good, the one found is a good entry.
  pub oldest-Good :
      (blank : K) (m : List (K × V))
      → Distinct m
      → 0 < length (sweep time now m)
      → Good (oldest_of time now (blank, 0) m).0 (oldest_of time now (blank, 0) m).1 m
  oldest-Good blank m d h =
      let (j, w, l) = some_entry (sweep time now m) h in
      let (p, _) = oldest-least (blank, 0) m j w l in
      elim (oldest-origin (blank, 0) m d) [
        | inl same ↦
            absurd (let z : (oldest_of time now (blank, 0) m).1 ≡ 0 = rw same in omega arith)
        | inr there ↦ there
      ]

  -- A sweep that drops nothing has met good entries only.
  all_good :
      (m : List (K × V)) (j : K) (w : V)
      → length m ≤ length (sweep time now m)
      → lookup j m ≡ some w
      → after (time w) now ≡ true
  unfolding sweep lookup
  all_good [] j w h l = absurd (cc)
  all_good ((k, v) ∷ m) j w h l =
      let le = length-sweep-le m in
      elim (Bool-cases (after (time v) now)) [
        | inl good ↦ ground (arith, all_good m j w)
        | inr over ↦ absurd (ground arith)
      ]

module _ {ℓ} {K V : Type ℓ} ⦃e : Eq K⦄ (time : V → ℕ) (now : ℕ) (blank : K) (limit : ℕ)
    (m : List (K × V)) (d : Distinct m) where
  pub make_room-Distinct : Distinct (make_room time now blank limit m)
  unfolding make_room
  make_room-Distinct =
      let s = sweep-Distinct time now m d in
      let deleted = delete-Distinct (oldest_of time now (blank, 0) m).0 (sweep time now m) s in
      ground arith

  -- A map within its bound has room for one more entry afterwards.
  pub length-make_room :
      0 < limit → length m ≤ limit → length (make_room time now blank limit m) + 1 ≤ limit
  unfolding make_room
  length-make_room pos le = elim (Bool-cases (leb limit (length (sweep time now m)))) [
    | inl full ↦
        let (v, held, _) = oldest-Good time now blank m d (ground arith) in
        let shorter =
          length-delete-lt (oldest_of time now (blank, 0) m).0 v (sweep time now m) held in
        let le' = length-sweep-le time now m in rw full (ground arith)
    | inr room ↦ rw room (ground arith)
  ]

  -- Nothing is added.
  pub lookup-make_room :
      (k : K) (v : V) → lookup k (make_room time now blank limit m) ≡ some v → lookup k m ≡ some v
  unfolding make_room
  lookup-make_room k v h = ground (
    arith,
    lookup-sweep time now k v m d,
    lookup-delete (oldest_of time now (blank, 0) m).0 k (sweep time now m),
  )

  nearest :
      length m ≤ limit
      → (k : K) (v : V) → lookup k (sweep time now m) ≡ some v
      → ((oldest_of time now (blank, 0) m).0 == k) ≡ true
      → limit ≤ length (sweep time now m)
      → (j : K) (w : V) → lookup j m ≡ some w
      → (after (time w) now ≡ true) × (time v ≤ time w)
  unfolding lookup
  nearest le k v l this full j w h =
      let good : after (time w) now ≡ true = all_good time now m j w (omega arith) h in
      let (_, low) = oldest-least time now (blank, 0) m j w (sweep-keeps time now j w m h good) in
      let pos_len = length_pos k v (sweep time now m) l in
      let (v', held, at) = oldest-Good time now blank m d pos_len in
      let same : (oldest_of time now (blank, 0) m).0 ≡ k =
        (e.beq_iff (oldest_of time now (blank, 0) m).0 k).0 this in
      let held' : lookup k (sweep time now m) ≡ some v' = rw same at held in
      let one : v' ≡ v = ground (arith, sym held' ∙ l) in
      let times : time v' ≡ time v = ap time one in (good, omega arith)
    where
      length_pos : (k : K) (v : V) (l : List (K × V)) → lookup k l ≡ some v → 0 < length l
      length_pos k v [] h = absurd (cc)
      length_pos k v (x ∷ l) h = omega arith

  -- Something goes only when the map is full, and what goes was over, or was the nearest of entries that are all good.
  pub make_room-evicts :
      length m ≤ limit
      → (k : K) (v : V) → lookup k m ≡ some v
      → (lookup k (make_room time now blank limit m) ≡ some v)
        ⊎ ((limit ≤ length m)
            × ((after (time v) now ≡ false)
                ⊎ ((j : K) (w : V)
                    → lookup j m ≡ some w
                    → (after (time w) now ≡ true) × (time v ≤ time w))))
  unfolding make_room
  make_room-evicts le k v l = elim (Bool-cases (leb limit (length m))) [
    | inr roomy ↦ inl (ground (arith, roomy, l))
    | inl crowded ↦ elim (Bool-cases (after (time v) now)) [
      | inr over ↦ inr (ground (arith, crowded), inl over)
      | inl good ↦
          let kept = sweep-keeps time now k v m l good in
          elim (Bool-cases (leb limit (length (sweep time now m)))) [
            | inr room ↦ inl (rw room (ground arith))
            | inl full ↦ elim (Bool-cases ((oldest_of time now (blank, 0) m).0 == k)) [
              | inr other ↦ inl (
                  rw full (
                    ground (
                      arith,
                      lookup-delete (oldest_of time now (blank, 0) m).0 k (sweep time now m),
                    )))
              | inl this ↦
                  inr (ground (arith, crowded), inr (nearest le k v kept this (ground arith)))
            ]
          ]
    ]
  ]
