-- ===== src/Pool/Bounded.antt =====
-- The maps with a limit on their size in scheduler.go, `sessions` and `limits`: a full map first
-- loses what is over, then the entry whose time is nearest.
pub mod Laws
use antigravity2api.Base.{
  ℕ, Bool, true, false, ◌&&◌, ◌||◌, List, [], ◌∷◌, Eq, leb, length, delete, insert, if◌then◌else◌,
}
use antigravity2api.Time.{after, before, is_zero}

module _ {ℓ} {K V : Type ℓ} ⦃e : Eq K⦄ (time : V → ℕ) (now : ℕ) where
  -- for k, v := range m { if !time(v).After(now) { delete(m, k) } }
  unfoldable pub sweep : List (K × V) → List (K × V)
  sweep [] = []
  sweep ((k, v) ∷ m) = let rest = sweep m in if after (time v) now then (k, v) ∷ rest else rest

  -- } else if oldest.IsZero() || time(v).Before(oldest) { oldestKey, oldest = k, time(v) }
  unfoldable pub nearer : K × ℕ → K → V → K × ℕ
  nearer best k v =
      if after (time v) now && (is_zero best.1 || before (time v) best.1) then (k, time v) else best

  -- oldestKey and oldest after the loop, from what they are before it.
  unfoldable pub oldest_of : K × ℕ → List (K × V) → K × ℕ
  unfolding nearer
  oldest_of best [] = best
  oldest_of best ((k, v) ∷ m) = oldest_of (nearer best k v) m

  -- `blank` is the zero value that oldestKey starts from.
  unfoldable pub make_room : K → ℕ → List (K × V) → List (K × V)
  unfolding sweep oldest_of delete
  make_room blank limit m =
      if leb limit (length m)
      then (if leb limit (length (sweep m))
          then delete (oldest_of (blank, 0) m).0 (sweep m)
          else sweep m)
      else m
