-- ===== src/Strings/Laws.antt =====
-- Laws of the text functions.
use antigravity2api.Base.{◌+◌, ◌++◌, ℕ, ◌≡◌, refl, true, [], ◌∷◌, Text, arith}
use antigravity2api.Strings.{
  trim_space, lower, rune_len, byte_len, to_lower, codes, trim_prefix, trim_suffix, contains,
}

trim_runs : trim_space (codes "  a b ") ≡ codes "a b"
unfolding trim_space
trim_runs = refl

prefix_runs : trim_prefix (codes "models/x") (codes "models/") ≡ codes "x"
unfolding trim_prefix
prefix_runs = refl

suffix_runs : trim_suffix (codes "gemini-high") (codes "-high") ≡ codes "gemini"
unfolding trim_suffix
suffix_runs = refl

contains_runs : contains (codes "abclaude") (codes "cla") ≡ true
unfolding contains
contains_runs = refl

pub lower_idem : (c : ℕ) → lower (lower c) ≡ lower c
unfolding lower
lower_idem c = ground arith

pub to_lower_idem : (s : Text) → to_lower (to_lower s) ≡ to_lower s
unfolding to_lower
to_lower_idem [] = refl
to_lower_idem (c ∷ s) = ground (arith, lower_idem c, to_lower_idem s)

-- Lower case keeps the number of bytes.
lower-rune_len : (c : ℕ) → rune_len (lower c) ≡ rune_len c
unfolding lower rune_len
lower-rune_len c = ground arith

pub byte_len-to_lower : (s : Text) → byte_len (to_lower s) ≡ byte_len s
unfolding byte_len to_lower
byte_len-to_lower [] = refl
byte_len-to_lower (c ∷ s) = omega (arith, lower-rune_len c, byte_len-to_lower s)

pub byte_len-append : (s t : Text) → byte_len (s ++ t) ≡ byte_len s + byte_len t
unfolding byte_len
byte_len-append [] t = omega arith
byte_len-append (c ∷ s) t = omega (arith, byte_len-append s t)
