-- ===== src/Json.antt =====
-- Decoded JSON, as encoding/json gives it for `any`: an object is a map, written as a list of
-- fields; a number, a float64 there, is kept as its integer
-- part and whether nothing follows that. `as_…` are Go's type assertions, which give the zero value
-- of a slice or a map where they fail.
pub mod Laws
use antigravity2api.Base.{
  Bool, true, false, List, [], ◌∷◌, Option, none, some, Text, ℤ, text_beq, if◌then◌else◌,
}

-- A float64, as far as `int(f)` and comparisons with integers read it.
pub record Number : Type 0 where
  pub truncated : ℤ
  pub integral : Bool

mutual
  pub data Json : Type 0 where
    null : Json
    bool : Bool → Json
    num : Number → Json
    str : Text → Json
    arr : Items → Json
    obj : Fields → Json

  pub data Items : Type 0 where
    nil : Items
    cons : Json → Items → Items

  pub data Fields : Type 0 where
    end : Fields
    field : Text → Json → Fields → Fields

-- m[key]; a key that is missing reads as nil.
unfoldable pub get : Text → Fields → Json
unfolding text_beq
get key end = null
get key (field k v fs) = let rest = get key fs in if text_beq k key then v else rest

unfoldable pub as_fields : Json → Option Fields
as_fields (obj fs) = some fs
as_fields _ = none

-- Of a nil map every key is missing.
unfoldable pub fields_or_empty : Json → Fields
fields_or_empty (obj fs) = fs
fields_or_empty _ = end

unfoldable pub items_or_empty : Json → Items
items_or_empty (arr xs) = xs
items_or_empty _ = nil

unfoldable pub string_or_empty : Json → Text
string_or_empty (str s) = s
string_or_empty _ = []

-- v != nil
abbrev pub is_set : Json → Bool
is_set null = false
is_set _ = true

-- _, ok := m[key]
unfoldable pub has : Text → Fields → Bool
unfolding text_beq
has key end = false
has key (field k v fs) = let rest = has key fs in if text_beq k key then true else rest

-- m[key] = v
unfoldable pub set : Text → Json → Fields → Fields
unfolding text_beq
set key v end = field key v end
set key v (field k w fs) =
    let rest = field k w (set key v fs) in if text_beq k key then field key v fs else rest

-- delete(m, key)
unfoldable pub remove : Text → Fields → Fields
unfolding text_beq
remove key end = end
remove key (field k w fs) =
    let rest = remove key fs in if text_beq k key then rest else field k w rest

unfoldable pub to_list : Items → List Json
to_list nil = []
to_list (cons v vs) = v ∷ to_list vs

unfoldable pub to_items : List Json → Items
to_items [] = nil
to_items (v ∷ vs) = cons v (to_items vs)

-- AsSlice
unfoldable pub as_slice : Json → List Json
unfolding to_list items_or_empty
as_slice v = to_list (items_or_empty v)
