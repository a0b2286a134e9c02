-- ===== src/Domain/ValueObjects/UrlSplit/Shape.antt =====
-- What the texts look like that `urlsplit` takes apart into a scheme and a network location.
use ch_tech_landing_page_bac.Base.{
  ℕ, Bool, true, false, ◌||◌, ◌&&◌, not, some, [], ◌∷◌, ◌++◌, ◌==◌, ◌≡◌, refl, ap, sym, ◌∙◌, arith,
  all, filter, Bool-cases, Option-cases, inl, inr, eqb→eq,
}
use ch_tech_landing_page_bac.Errors.{Result, ok, err}
use ch_tech_landing_page_bac.Text.{Str, Unicode, text, str_eq}
use ch_tech_landing_page_bac.Domain.ValueObjects.UrlSplit.{
  skip_control, is_unsafe, scheme_char, ascii_lower, at_colon, starts_alpha, split_scheme,
  until_delimiter, netloc_of, netloc_ok, urlsplit,
}

-- A character that ends the network location.
abbrev pub is_delimiter : ℕ → Bool
is_delimiter c = c == b'/' || c == b'?' || c == b'#'

-- The text without the control characters and spaces at its start, and without tabs and line ends.
unfoldable pub cleaned : Str → Str
unfolding skip_control is_unsafe
cleaned s = filter (λ c. not (is_unsafe c)) (skip_control s)

-- The text in small letters of ASCII.
unfoldable pub small : Str → Str
unfolding ascii_lower
small = ascii_lower

at_colon-parts :
    (s before after : Str) → at_colon s ≡ some (before, after) → s ≡ before ++ b':' ∷ after
unfolding at_colon
at_colon-parts [] before after e = absurd (cc)
at_colon-parts (c ∷ s) before after e = elim (Bool-cases (c == b':')) [
  | inl y ↦ let e' = rw y at e in let is_colon : c ≡ b':' = eqb→eq c b':' y in cc
  | inr n ↦ elim (Option-cases (at_colon s)) [
    | inl gone ↦ absurd (let e' = rw (n, gone) at e in cc)
    | inr ((b, a), found) ↦
        let e' : some (c ∷ b, a) ≡ some (before, after) = rw (n, found) at e in
        let same : s ≡ b ++ b':' ∷ a = at_colon-parts s b a found in cc
  ]
]

-- A scheme that is not empty is what stands before the first colon.
split_scheme-parts :
    (url : Str)
    → str_eq (split_scheme url).0 [] ≡ false
    → (before after : Str) × (url ≡ before ++ b':' ∷ after)
      × (split_scheme url ≡ (ascii_lower before, after))
unfolding split_scheme
split_scheme-parts url h = elim (Option-cases (at_colon url)) [
  | inl gone ↦ without (rw (gone, split_scheme) refl)
  | inr ((before, after), found) ↦
      elim (Bool-cases (starts_alpha before && all scheme_char before)) [
        | inl good ↦ (
          before,
          after,
          at_colon-parts url before after found,
          rw (found, good, split_scheme) refl,
        )
        | inr bad ↦ without (rw (found, bad, split_scheme) refl)
      ]
]
  where
    without : {A : Type 0} → split_scheme url ≡ ([], url) → A
    without e = absurd (let bad : true ≡ false = sym (ap (λ p. str_eq p.0 []) e) ∙ h in cc)

-- A network location that is not empty follows two slashes.
netloc_of-parts :
    (s : Str)
    → str_eq (netloc_of s) [] ≡ false
    → (c : ℕ) × (rest : Str) × (s ≡ b'/' ∷ b'/' ∷ c ∷ rest) × (is_delimiter c ≡ false)
unfolding netloc_of until_delimiter
netloc_of-parts [] h = absurd (cc)
netloc_of-parts (c ∷ []) h = absurd (cc)
netloc_of-parts (c ∷ d ∷ []) h = absurd (elim (Bool-cases (c == b'/' && d == b'/')) [
  | inl y ↦ (let h' = rw y at h in cc)
  | inr n ↦ (let h' = rw n at h in cc)
])
netloc_of-parts (c ∷ d ∷ e ∷ s) h = elim (Bool-cases (c == b'/' && d == b'/')) [
  | inl y ↦ elim (Bool-cases (is_delimiter e)) [
    | inl stop ↦ absurd (let h' = rw (y, stop) at h in cc)
    | inr go ↦
        let one : c ≡ b'/' = eqb→eq c b'/' (ground arith) in
        let two : d ≡ b'/' = eqb→eq d b'/' (ground arith) in (e, s, rw (one, two) refl, go)
  ]
  | inr n ↦ absurd (let h' = rw n at h in cc)
]

-- The text has a scheme, `://`, and then a character that is part of the network location.
pub record HasShape (s scheme : Str) : Type 0 where
  pub written : Str
  pub first : ℕ
  pub rest : Str
  pub shape : cleaned s ≡ written ++ (text "://" ++ first ∷ rest)
  pub spelling : small written ≡ scheme
  pub part : is_delimiter first ≡ false

abbrev parts_or : Str × Str → Result (Str × Str) → Str × Str
parts_or p (ok q) = q
parts_or p (err e) = p

pub urlsplit-HasShape :
    (u : Unicode) (s scheme netloc : Str)
    → urlsplit u s ≡ ok (scheme, netloc)
    → str_eq scheme [] ≡ false
    → str_eq netloc [] ≡ false
    → HasShape s scheme
unfolding urlsplit cleaned small
urlsplit-HasShape u s scheme netloc e has_scheme has_netloc =
    let parts = split_scheme (cleaned s) in
    elim (Bool-cases (netloc_ok u (netloc_of parts.1))) [
      | inl good ↦
          let e' : ok (parts.0, netloc_of parts.1) ≡ ok (scheme, netloc) = rw good at e in
          let is_scheme : parts.0 ≡ scheme = ap (λ r. (parts_or parts r).0) e' in
          let is_netloc : netloc_of parts.1 ≡ netloc = ap (λ r. (parts_or parts r).1) e' in
          let (before, after, same, split) =
            split_scheme-parts (cleaned s) (rw is_scheme has_scheme) in
          let (c, rest, tail, part) =
            netloc_of-parts after
              (ap (λ p. str_eq (netloc_of p.1) []) (sym split) ∙ rw is_netloc has_netloc) in
          record {
            written = before;
            first = c;
            rest = rest;
            shape = same ∙ ap (λ t. before ++ b':' ∷ t) tail;
            spelling = ap (λ p. p.0) (sym split) ∙ is_scheme;
            part = part;
          }
      | inr bad ↦ absurd (let e' = rw bad at e in cc)
    ]
