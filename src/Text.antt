-- ===== src/Text.antt =====
-- Python's `str` as a list of code points, with the methods that app/domain/value_objects.py and
-- app/application/use_cases/auth.py call. `isspace` and the ASCII part of `lower` are written out;
-- the Unicode tables beyond ASCII are a parameter.
pub mod Laws
pub mod Regex
use Prim.Native.Char.{code}
use ch_tech_landing_page_bac.Base.{
  ℕ, ◌+◌, Bool, true, false, ◌||◌, ◌&&◌, List, [], ◌∷◌, ◌++◌, String, ltb, leb, ◌==◌, if◌then◌else◌,
}

abbrev pub Str : Type 0
Str = List ℕ

-- A literal of the source.
abbrev pub text : String → Str
text String.[] = []
text (String.◌∷◌ c s) = code c ∷ text s

-- `a == b`
abbrev pub str_eq : Str → Str → Bool
str_eq [] [] = true
str_eq [] (_ ∷ _) = false
str_eq (_ ∷ _) [] = false
str_eq (a ∷ s) (b ∷ t) = a == b && str_eq s t

abbrev within : ℕ → ℕ → ℕ → Bool
within lo hi c = leb lo c && leb c hi

-- `c.isspace()`, which is also the class `\s` of `re`.
unfoldable pub is_space : ℕ → Bool
is_space c =
    within 9 13 c
    || within 28 32 c
    || c == 0x85
    || c == 0xa0
    || c == 0x1680
    || within 0x2000 0x200a c
    || c == 0x2028
    || c == 0x2029
    || c == 0x202f
    || c == 0x205f
    || c == 0x3000

unfoldable pub lstrip : Str → Str
lstrip [] = []
lstrip (c ∷ s) = if is_space c then lstrip s else c ∷ s

-- A character of the end stays unless all that follows it is white.
unfoldable pub rstrip : Str → Str
rstrip [] = []
rstrip (c ∷ s) = elim (rstrip s) [ [] ↦ if is_space c then [] else c ∷ [] | d ∷ t ↦ c ∷ d ∷ t ]

-- `s.strip()`
unfoldable pub strip : Str → Str
unfolding lstrip rstrip is_space
strip s = rstrip (lstrip s)

-- The Unicode data that CPython ships: the lower case of a character beyond ASCII, the normal form
-- test of `urllib.parse`, and its test of a bracketed host.
pub record Unicode : Type 0 where
  pub lower_wide : ℕ → Str
  pub nfkc_ok : Str → Bool
  pub bracket_ok : Str → Bool

module _ (u : Unicode) where
  unfoldable pub lower_char : ℕ → Str
  lower_char c =
      if within b'A' b'Z' c then (c + 32) ∷ [] else if ltb c 128 then c ∷ [] else u.lower_wide c

  -- `s.lower()`, character by character (the final sigma, which depends on its neighbours, is the
  -- one exception of Unicode and is left to the table).
  unfoldable pub lower : Str → Str
  unfolding lower_char
  lower [] = []
  lower (c ∷ s) = lower_char c ++ lower s
