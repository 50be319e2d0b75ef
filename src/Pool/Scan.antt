-- ===== src/Pool/Scan.antt =====
-- The loop over the accounts in selectAccount.
pub mod Laws
pub mod Turn
pub mod Choice
pub mod Waits
use antigravity2api.Base.{
  ℕ, ◌+◌, Bool, true, false, ◌&&◌, ◌||◌, not, List, [], ◌∷◌, Option, none, some, Text, text_beq,
  leb, ltb, nat_beq, if◌then◌else◌,
}
use antigravity2api.Time.{after, before, is_zero, from_unix, unix_seconds, unix_epoch}
use antigravity2api.Accounts.{Account, QuotaData}
use antigravity2api.Convert.Catalog.{contains}
use antigravity2api.Pool.Slots.{Slots, Reservation, slot_of}
use antigravity2api.Pool.State.{LimitKey, LimitRecord, ModelCandidate}
use antigravity2api.Pool.View.{available}
use antigravity2api.Pool.Limits.{limited_until}

-- What the loop reads and does not change.
pub record Env : Type 0 where
  pub limits : List (LimitKey × LimitRecord)
  pub skip_expired : Bool
  pub now : ℕ
  pub excluded : List Text
  pub cap : ℕ
  pub bound : Option Text

-- picked with chosen, busy and earliest, and the reservations.
pub record Scan : Type 0 where
  pub slots : Slots
  pub picked : Option (Account × ℕ)
  pub busy : Bool
  pub earliest : ℕ

abbrev pub start : Slots → Scan
start s = record { slots = s; picked = none; busy = false; earliest = 0 }

-- Where an account stands before its reservation is looked at: left out, waiting for an instant,
-- or ready.
pub data Standing : Type 0 where
  out : Standing
  waits : ℕ → Standing
  ready : Standing

abbrev pub is_forbidden : Option QuotaData → Bool
is_forbidden none = false
is_forbidden (some q) = q.is_forbidden

-- Disabled, expired or forbidden.
unfoldable pub withdrawn : Bool → ℕ → Account → Bool
withdrawn skip_expired now a =
    a.disabled
    || (skip_expired && leb (a.expires_at + unix_epoch) (unix_seconds now))
    || is_forbidden a.quota

-- The latest of the limits on the account, on the model and in the account's record.
unfoldable pub cooling_until : List (LimitKey × LimitRecord) → Account → ModelCandidate → ℕ
unfolding limited_until
cooling_until limits a c =
    let until = limited_until limits a.id c.mapped in
    let t = from_unix a.rate_limited_until in if after t until then t else until

unfoldable pub standing : Env → Account → ModelCandidate → Standing
unfolding withdrawn cooling_until contains available
standing e a c =
    let until = cooling_until e.limits a c in
    if contains e.excluded a.id
    then out
    else (if withdrawn e.skip_expired e.now a
        then out
        else (if not (available c e.now)
            then (if after c.reset e.now then waits c.reset else out)
            else (if after until e.now then waits until else ready)))

-- if earliest.IsZero() || t.Before(earliest) { earliest = t }
unfoldable pub earlier : ℕ → ℕ → ℕ
earlier earliest t = if is_zero earliest || before t earliest then t else earliest

-- chosen == nil || r.active < chosen.active || (r.active == chosen.active && r.last < chosen.last)
unfoldable pub preferred : Reservation → Option Reservation → Bool
preferred r none = true
preferred r (some chosen) =
    ltb r.active chosen.active || (nat_beq r.active chosen.active && ltb r.last chosen.last)

abbrev pub chosen : Scan → Option Reservation
chosen st = elim st.picked [ none ↦ none | some (a, r) ↦ some (st.slots.cell r) ]

abbrev pub is_bound : Option Text → Text → Bool
is_bound none id = false
is_bound (some b) id = text_beq id b

-- The body from `r := p.reservations[a.ID]` on; the flag says that the loop breaks.
unfoldable pub consider : Env → Account → Scan → Scan × Bool
unfolding slot_of preferred text_beq
consider e a st =
    let (s, r) = slot_of a.id st.slots in
    let st' = record st { slots = s } in
    if leb e.cap (s.cell r).active
    then (record st' { busy = true }, false)
    else (if is_bound e.bound a.id
        then (record st' { picked = some (a, r) }, true)
        else (if preferred (s.cell r) (chosen st')
            then (record st' { picked = some (a, r) }, false)
            else (st', false)))

-- The body of the loop once the account's standing is known.
unfoldable pub act : Env → Account → Scan → Standing → Scan × Bool
unfolding consider earlier
act e a st out = (st, false)
act e a st (waits t) = (record st { earliest = earlier st.earliest t }, false)
act e a st ready = consider e a st

-- The body of the loop.
unfoldable pub visit : Env → Account → ModelCandidate → Scan → Scan × Bool
unfolding standing act
visit e a c st = act e a st (standing e a c)

-- The loop; `view` has a candidate for each account.
unfoldable pub scan : Env → List Account → List ModelCandidate → Scan → Scan
unfolding visit
scan e (a ∷ accounts) (c ∷ view) st =
    let (st', stop) = visit e a c st in
    let rest = scan e accounts view st' in if stop then st' else rest
scan e _ _ st = st
