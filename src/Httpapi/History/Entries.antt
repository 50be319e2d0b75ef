-- ===== src/Httpapi/History/Entries.antt =====
-- The entries of the history, as a list without a key twice.
use antigravity2api.Base.{
  ℕ, suc, ◌+◌, ◌≤◌, ◌≡◌, refl, sym, subst, List, [], ◌∷◌, Option, none, some, Text, text_beq,
  text_beq_iff, length, Bool-cases, inl, inr, arith,
}
use antigravity2api.Time.{after}
use antigravity2api.Httpapi.History.{
  HistoryEntry, History, find_entry, without, remove_entry, unexpired, expired_bytes, last_entry,
}

-- The bytes of the inputs.
unfoldable pub total_bytes : List HistoryEntry → ℕ
total_bytes [] = 0
total_bytes (e ∷ es) = length e.input + total_bytes es

abbrev pub DistinctKeys : List HistoryEntry → Type 0
DistinctKeys [] = Unit
DistinctKeys (e ∷ es) = (find_entry e.key es ≡ none) × DistinctKeys es

pub find_entry-key :
    (key : Text) (es : List HistoryEntry) (e : HistoryEntry)
    → find_entry key es ≡ some e
    → e.key ≡ key
unfolding find_entry
find_entry-key key [] e h = absurd (ground (arith, h))
find_entry-key key (d ∷ es) e h = ground (arith, h, text_beq_iff d.key key, find_entry-key key es e)

-- An entry that is found is taken out.
pub without-sizes :
    (key : Text) (es : List HistoryEntry) (e : HistoryEntry)
    → find_entry key es ≡ some e
    → (length es ≡ suc (length (without key es)))
      × (total_bytes es ≡ length e.input + total_bytes (without key es))
unfolding find_entry without total_bytes
without-sizes key [] e h = absurd (ground (arith, h))
without-sizes key (d ∷ es) e h =
    ground (arith, h, λ (r : find_entry key es ≡ some e). without-sizes key es e r)

pub without-absent :
    (key j : Text) (es : List HistoryEntry)
    → find_entry j es ≡ none
    → find_entry j (without key es) ≡ none
unfolding find_entry without
without-absent key j [] h = refl
without-absent key j (d ∷ es) h = ground (arith, h, without-absent key j es)

pub without-key :
    (key : Text) (es : List HistoryEntry) → DistinctKeys es → find_entry key (without key es) ≡ none
unfolding find_entry without
without-key key [] h = refl
without-key key (d ∷ es) h = ground (arith, h.0, text_beq_iff d.key key, without-key key es h.1)

pub without-DistinctKeys :
    (key : Text) (es : List HistoryEntry) → DistinctKeys es → DistinctKeys (without key es)
unfolding without
without-DistinctKeys key [] h = tt
without-DistinctKeys key (d ∷ es) h = elim (Bool-cases (text_beq d.key key)) [
  | inl e ↦
      let is : without key (d ∷ es) ≡ es = ground (arith, e) in subst DistinctKeys (sym is) h.1
  | inr e ↦
      let is : without key (d ∷ es) ≡ d ∷ without key es = ground (arith, e) in
      subst DistinctKeys (sym is) (without-absent key d.key es h.0, without-DistinctKeys key es h.1)
]

pub unexpired-absent :
    (now : ℕ) (j : Text) (es : List HistoryEntry)
    → find_entry j es ≡ none
    → find_entry j (unexpired now es) ≡ none
unfolding find_entry unexpired
unexpired-absent now j [] h = refl
unexpired-absent now j (d ∷ es) h = ground (arith, h, unexpired-absent now j es)

pub unexpired-DistinctKeys :
    (now : ℕ) (es : List HistoryEntry) → DistinctKeys es → DistinctKeys (unexpired now es)
unfolding unexpired
unexpired-DistinctKeys now [] h = tt
unexpired-DistinctKeys now (d ∷ es) h = elim (Bool-cases (after now d.expires)) [
  | inl e ↦
      let is : unexpired now (d ∷ es) ≡ unexpired now es = ground (arith, e) in
      subst DistinctKeys (sym is) (unexpired-DistinctKeys now es h.1)
  | inr e ↦
      let is : unexpired now (d ∷ es) ≡ d ∷ unexpired now es = ground (arith, e) in
      subst DistinctKeys (sym is)
        (unexpired-absent now d.key es h.0, unexpired-DistinctKeys now es h.1)
]

pub unexpired-sizes :
    (now : ℕ) (es : List HistoryEntry)
    → (length (unexpired now es) ≤ length es)
      × (total_bytes es ≡ expired_bytes now es + total_bytes (unexpired now es))
unfolding unexpired expired_bytes total_bytes
unexpired-sizes now [] = (omega arith, refl)
unexpired-sizes now (d ∷ es) = ground (arith, unexpired-sizes now es)

pub last_entry-found :
    (es : List HistoryEntry) (e : HistoryEntry)
    → DistinctKeys es
    → last_entry es ≡ some e
    → find_entry e.key es ≡ some e
unfolding find_entry last_entry
last_entry-found [] e d h = absurd (ground (arith, h))
last_entry-found (c ∷ es) e d h = go (last_entry es) refl (λ l q. last_entry-found es l d.1 q)
  where
    go :
        (r : Option HistoryEntry)
        → last_entry es ≡ r
        → ((l : HistoryEntry) → last_entry es ≡ some l → find_entry l.key es ≡ some l)
        → find_entry e.key (c ∷ es) ≡ some e
    go none q ih = ground (arith, h, q, text_beq_iff e.key e.key)
    go (some l) q ih = ground (arith, h, q, d.0, text_beq_iff c.key e.key, ih l q)

pub remove_entry-gone :
    (key : Text) (e : HistoryEntry) (h : History)
    → e.key ≡ key
    → DistinctKeys h.lru
    → find_entry key (remove_entry e h).lru ≡ none
unfolding remove_entry
remove_entry-gone key e h own d =
    subst (λ j. find_entry key (without j h.lru) ≡ none) (sym own) (without-key key h.lru d)

pub remove_entry-length :
    (e : HistoryEntry) (h : History) (n : ℕ)
    → find_entry e.key h.lru ≡ some e
    → length h.lru ≡ suc n
    → length (remove_entry e h).lru ≡ n
unfolding remove_entry
remove_entry-length e h n found l = ground (arith, l, without-sizes e.key h.lru e found)

pub empty_bytes : (es : List HistoryEntry) → length es ≡ 0 → total_bytes es ≡ 0
unfolding total_bytes
empty_bytes [] l = refl
empty_bytes (e ∷ es) l = absurd (ground (arith, l))

pub last_entry-none : (es : List HistoryEntry) → last_entry es ≡ none → length es ≡ 0
unfolding last_entry
last_entry-none [] h = refl
last_entry-none (e ∷ es) h = go (last_entry es) refl
  where
    go : (r : Option HistoryEntry) → last_entry es ≡ r → length (e ∷ es) ≡ 0
    go none q = absurd (ground (arith, h, q))
    go (some l) q = absurd (ground (arith, h, q))
