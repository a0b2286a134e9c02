-- ===== src/Text/Regex.antt =====
-- The part of Python's `re` that app/domain/value_objects.py uses: classes of characters,
-- concatenation, repetition and grouping. `fullmatch` is decided by derivatives.
pub mod Meaning
use ch_tech_landing_page_bac.Base.{
  ℕ, Bool, true, false, ◌||◌, ◌&&◌, ◌≡◌, [], ◌∷◌, ◌++◌, if◌then◌else◌,
}
use ch_tech_landing_page_bac.Text.{Str}

pub data Regex : Type 0 where
  nothing empty : Regex
  class : (ℕ → Bool) → Regex
  seq alt : Regex → Regex → Regex
  star : Regex → Regex

-- `r+`
abbrev pub plus : Regex → Regex
plus r = seq r (star r)

-- What a pattern means: the texts that it matches as a whole.
pub data Matches : Regex → Str → Type 0 where
  matches_empty : Matches empty []
  matches_class : {p : ℕ → Bool} (c : ℕ) → p c ≡ true → Matches (class p) (c ∷ [])
  matches_seq :
      {r q : Regex} (s t : Str) {u : Str}
      → Matches r s
      → Matches q t
      → u ≡ s ++ t
      → Matches (seq r q) u
  matches_left : {r q : Regex} {s : Str} → Matches r s → Matches (alt r q) s
  matches_right : {r q : Regex} {s : Str} → Matches q s → Matches (alt r q) s
  matches_done : {r : Regex} → Matches (star r) []
  matches_more :
      {r : Regex} (c : ℕ) (s t : Str) {u : Str}
      → Matches r (c ∷ s)
      → Matches (star r) t
      → u ≡ c ∷ s ++ t
      → Matches (star r) u

unfoldable pub nullable : Regex → Bool
nullable nothing = false
nullable empty = true
nullable (class p) = false
nullable (seq r q) = nullable r && nullable q
nullable (alt r q) = nullable r || nullable q
nullable (star r) = true

-- The texts `s` with `c ∷ s` in the pattern.
unfoldable pub derive : ℕ → Regex → Regex
unfolding nullable
derive c nothing = nothing
derive c empty = nothing
derive c (class p) = if p c then empty else nothing
derive c (seq r q) =
    if nullable r then alt (seq (derive c r) q) (derive c q) else seq (derive c r) q
derive c (alt r q) = alt (derive c r) (derive c q)
derive c (star r) = seq (derive c r) (star r)

-- `re.fullmatch(r, s) is not None`
unfoldable pub fullmatch : Regex → Str → Bool
unfolding derive nullable
fullmatch r [] = nullable r
fullmatch r (c ∷ s) = fullmatch (derive c r) s
