-- ===== src/Convert/Contents/Merge.antt =====
-- What mergeContents keeps, and what it brings about.
use antigravity2api.Base.{
  ◌≡◌, refl, sym, ap, subst, ◌∙◌, Bool, true, false, ◌&&◌, not, List, [], ◌∷◌, ◌++◌, append_assoc,
  text_beq, is_empty, Bool-cases, inl, inr, arith,
}
use antigravity2api.Strings.{codes}
use antigravity2api.Json.{Json, arr, Fields, get, to_items, to_list, as_slice}
use antigravity2api.Json.Laws.{get-set, get-set_other}
use antigravity2api.Convert.Contents.{
  parts_in, with_parts, eq_role, same_role, merge_onto, merge_contents,
}

-- The parts of the messages, one after another.
unfoldable pub all_parts : List Fields → List Json
all_parts [] = []
all_parts (m ∷ ms) = parts_in m ++ all_parts ms

-- The message is not followed by one of its role.
abbrev pub differs : Fields → List Fields → Bool
differs m [] = true
differs m (n ∷ ns) = not (same_role m n)

-- Every message has a part, and no two neighbours have one role.
unfoldable pub alternates : List Fields → Bool
alternates [] = true
alternates (m ∷ ms) = not (is_empty (parts_in m)) && (differs m ms && alternates ms)

pub to_list-to_items : (vs : List Json) → to_list (to_items vs) ≡ vs
unfolding to_list to_items
to_list-to_items [] = refl
to_list-to_items (v ∷ vs) = ap (λ ws. v ∷ ws) (to_list-to_items vs)

pub parts_in-with_parts : (parts : List Json) (m : Fields) → parts_in (with_parts parts m) ≡ parts
unfolding as_slice
parts_in-with_parts parts m =
    ap as_slice (get-set (codes "parts") (arr (to_items parts)) m) ∙ to_list-to_items parts

role-with_parts :
    (parts : List Json) (m : Fields)
    → get (codes "role") (with_parts parts m) ≡ get (codes "role") m
unfolding text_beq
role-with_parts parts m = get-set_other (codes "parts") (codes "role") (arr (to_items parts)) m refl

-- A property of the three ways a message is taken.
merge_onto-elim :
    (P : List Fields → Type 0) (last m : Fields) (ms : List Fields)
    → (is_empty (parts_in m) ≡ true → P (merge_onto last ms))
    → (is_empty (parts_in m) ≡ false
        → same_role last m ≡ true
        → P (merge_onto (with_parts (parts_in last ++ parts_in m) last) ms))
    → (is_empty (parts_in m) ≡ false → same_role last m ≡ false → P (last ∷ merge_onto m ms))
    → P (merge_onto last (m ∷ ms))
unfolding merge_onto
merge_onto-elim P last m ms skipped joined apart = elim (Bool-cases (is_empty (parts_in m))) [
  | inl e ↦
      let is : merge_onto last (m ∷ ms) ≡ merge_onto last ms = ground (arith, e) in
      subst P (sym is) (skipped e)
  | inr e ↦ elim (Bool-cases (same_role last m)) [
    | inl r ↦
        let is : merge_onto last (m ∷ ms)
            ≡ merge_onto (with_parts (parts_in last ++ parts_in m) last) ms =
          ground (arith, e, r) in
        subst P (sym is) (joined e r)
    | inr r ↦
        let is : merge_onto last (m ∷ ms) ≡ last ∷ merge_onto m ms = ground (arith, e, r) in
        subst P (sym is) (apart e r)
  ]
]

no_parts : (parts rest : List Json) → is_empty parts ≡ true → rest ≡ parts ++ rest
no_parts [] rest e = refl
no_parts (v ∷ vs) rest e = absurd (ground (arith, e))

merge_onto-parts :
    (last : Fields) (ms : List Fields)
    → all_parts (merge_onto last ms) ≡ parts_in last ++ all_parts ms
unfolding merge_onto all_parts
merge_onto-parts last [] = refl
merge_onto-parts last (m ∷ ms) =
    let behind = λ (rest : List Json). parts_in last ++ rest in
    merge_onto-elim (λ out. all_parts out ≡ parts_in last ++ (parts_in m ++ all_parts ms)) last m ms
      (λ e. merge_onto-parts last ms ∙ ap behind (no_parts (parts_in m) (all_parts ms) e))
      (λ e r.
        merge_onto-parts (with_parts (parts_in last ++ parts_in m) last) ms
        ∙ ap (λ (parts : List Json). parts ++ all_parts ms)
            (parts_in-with_parts (parts_in last ++ parts_in m) last)
        ∙ append_assoc (parts_in last) (parts_in m) (all_parts ms))
      (λ e r. ap behind (merge_onto-parts m ms))

append_not_empty : (xs ys : List Json) → is_empty xs ≡ false → is_empty (xs ++ ys) ≡ false
append_not_empty [] ys e = absurd (ground (arith, e))
append_not_empty (x ∷ xs) ys e = refl

-- The first of the messages has the role of `last`.
merge_onto-differs :
    (before_it last : Fields) (ms : List Fields)
    → same_role before_it last ≡ false
    → differs before_it (merge_onto last ms) ≡ true
unfolding merge_onto
merge_onto-differs b last [] h = ap not h
merge_onto-differs b last (m ∷ ms) h =
    merge_onto-elim (λ out. differs b out ≡ true) last m ms (λ e. merge_onto-differs b last ms h)
      (λ e r. merge_onto-differs b (with_parts (parts_in last ++ parts_in m) last) ms (
        ap (λ role. eq_role (get (codes "role") b) role)
          (role-with_parts (parts_in last ++ parts_in m) last)
        ∙ h))
      (λ e r. ap not h)

merge_onto-alternates :
    (last : Fields) (ms : List Fields)
    → is_empty (parts_in last) ≡ false
    → alternates (merge_onto last ms) ≡ true
unfolding merge_onto alternates
merge_onto-alternates last [] h = ground (arith, h)
merge_onto-alternates last (m ∷ ms) h =
    merge_onto-elim (λ out. alternates out ≡ true) last m ms (λ e. merge_onto-alternates last ms h)
      (λ e r. merge_onto-alternates (with_parts (parts_in last ++ parts_in m) last) ms (
        ap is_empty (parts_in-with_parts (parts_in last ++ parts_in m) last)
        ∙ append_not_empty (parts_in last) (parts_in m) h))
      (λ e r.
        all_three (is_empty (parts_in last)) _ _ h (merge_onto-differs last m ms r)
          (merge_onto-alternates m ms e))
  where
    all_three : (a b c : Bool) → a ≡ false → b ≡ true → c ≡ true → (not a && (b && c)) ≡ true
    all_three a b c p q t = ground (arith, p, q, t)

-- mergeContents keeps every part, and all in their order; of what it gives, every message has a part,
-- and no two neighbours have the same role.
pub merge_contents-alternates :
    (ms : List Fields)
    → (all_parts (merge_contents ms) ≡ all_parts ms) × (alternates (merge_contents ms) ≡ true)
unfolding merge_contents all_parts alternates
merge_contents-alternates [] = (refl, refl)
merge_contents-alternates (m ∷ ms) = elim (Bool-cases (is_empty (parts_in m))) [
  | inl e ↦
      let is : merge_contents (m ∷ ms) ≡ merge_contents ms = ground (arith, e) in
      let (parts, alternating) = merge_contents-alternates ms in
      (
        ap all_parts is ∙ parts ∙ no_parts (parts_in m) (all_parts ms) e,
        ap alternates is ∙ alternating,
      )
  | inr e ↦
      let is : merge_contents (m ∷ ms) ≡ merge_onto m ms = ground (arith, e) in
      (ap all_parts is ∙ merge_onto-parts m ms, ap alternates is ∙ merge_onto-alternates m ms e)
]
