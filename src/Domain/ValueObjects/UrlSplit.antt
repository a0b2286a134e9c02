-- ===== src/Domain/ValueObjects/UrlSplit.antt =====
-- What app/domain/value_objects.py uses of `urllib.parse.urlsplit`: the scheme and the network
-- location. The checks of a bracketed host and of a host beyond ASCII are Unicode and address
-- tables, a parameter.
pub mod Shape
use ch_tech_landing_page_bac.Base.{
  ℕ, ◌+◌, Bool, false, ◌||◌, ◌&&◌, not, Option, none, some, [], ◌∷◌, leb, ◌==◌, if◌then◌else◌, any,
  all, filter, ltb,
}
use ch_tech_landing_page_bac.Errors.{Result, ok, err, value_error}
use ch_tech_landing_page_bac.Text.{Str, Unicode}

-- `url.lstrip(_WHATWG_C0_CONTROL_OR_SPACE)`
skip_control : Str → Str
skip_control [] = []
skip_control (c ∷ s) = if leb c 32 then skip_control s else c ∷ s

-- The tabs and line ends that `urlsplit` removes.
is_unsafe : ℕ → Bool
is_unsafe c = c == 9 || c == 10 || c == 13

is_alpha : ℕ → Bool
is_alpha c = (leb b'a' c && leb c b'z') || (leb b'A' c && leb c b'Z')

scheme_char : ℕ → Bool
unfolding is_alpha
scheme_char c = is_alpha c || (leb b'0' c && leb c b'9') || c == b'+' || c == b'-' || c == b'.'

ascii_lower : Str → Str
ascii_lower [] = []
ascii_lower (c ∷ s) = (if leb b'A' c && leb c b'Z' then c + 32 else c) ∷ ascii_lower s

-- `url[:i]` and `url[i + 1:]` at the first colon.
at_colon : Str → Option (Str × Str)
at_colon [] = none
at_colon (c ∷ s) =
    let rest = at_colon s in
    if c == b':'
    then some ([], s)
    else elim rest [ none ↦ none | some (before, after) ↦ some (c ∷ before, after) ]

starts_alpha : Str → Bool
unfolding is_alpha
starts_alpha [] = false
starts_alpha (c ∷ _) = is_alpha c

split_scheme : Str → Str × Str
unfolding at_colon starts_alpha scheme_char ascii_lower
split_scheme url = elim (at_colon url) [
  | none ↦ ([], url)
  | some (before, after) ↦
      if starts_alpha before && all scheme_char before
      then (ascii_lower before, after)
      else ([], url)
]

-- `_splitnetloc`
until_delimiter : Str → Str
until_delimiter [] = []
until_delimiter (c ∷ s) = if c == b'/' || c == b'?' || c == b'#' then [] else c ∷ until_delimiter s

netloc_of : Str → Str
unfolding until_delimiter
netloc_of [] = []
netloc_of (_ ∷ []) = []
netloc_of (c ∷ d ∷ s) = if c == b'/' && d == b'/' then until_delimiter s else []

contains : ℕ → Str → Bool
contains d = any (λ c. c == d)

module _ (u : Unicode) where
  netloc_ok : Str → Bool
  unfolding contains
  netloc_ok n =
      (if contains b'[' n then contains b']' n && u.bracket_ok n else not (contains b']' n))
      && (all (λ c. ltb c 128) n || u.nfkc_ok n)

  -- The scheme and the network location, or `ValueError`.
  unfoldable pub urlsplit : Str → Result (Str × Str)
  unfolding skip_control is_unsafe split_scheme netloc_of netloc_ok
  urlsplit s =
      let parts = split_scheme (filter (λ c. not (is_unsafe c)) (skip_control s)) in
      let netloc = netloc_of parts.1 in
      if netloc_ok netloc then ok (parts.0, netloc) else err value_error
