-- ===== src/Json/Laws.antt =====
-- What is read of a map after a change.
use antigravity2api.Base.{◌≡◌, refl, false, Text, text_beq, text_beq_iff, arith}
use antigravity2api.Json.{Json, null, Fields, field, end, get, set, remove}

pub get-set : (key : Text) (v : Json) (m : Fields) → get key (set key v m) ≡ v
unfolding get set
get-set key v end = ground (arith, text_beq_iff key key)
get-set key v (field k w fs) =
    ground (arith, text_beq_iff key key, text_beq_iff k key, get-set key v fs)

pub get-set_other :
    (key other : Text) (v : Json) (m : Fields)
    → text_beq key other ≡ false
    → get other (set key v m) ≡ get other m
unfolding get set
get-set_other key other v end h = ground (arith, h)
get-set_other key other v (field k w fs) h = ground (
  arith,
  h,
  text_beq_iff k key,
  text_beq_iff key other,
  text_beq_iff k other,
  get-set_other key other v fs h,
)

pub get-remove : (key : Text) (m : Fields) → get key (remove key m) ≡ null
unfolding get remove
get-remove key end = refl
get-remove key (field k w fs) = ground (arith, get-remove key fs)

pub get-remove_other :
    (key other : Text) (m : Fields)
    → text_beq key other ≡ false
    → get other (remove key m) ≡ get other m
unfolding get remove
get-remove_other key other end h = refl
get-remove_other key other (field k w fs) h = ground (
  arith,
  h,
  text_beq_iff k key,
  text_beq_iff key other,
  text_beq_iff k other,
  get-remove_other key other fs h,
)
