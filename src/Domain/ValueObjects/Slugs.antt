-- ===== src/Domain/ValueObjects/Slugs.antt =====
-- Which texts are slugs.
use ch_tech_landing_page_bac.Base.{
  ℕ, Bool, true, false, ◌&&◌, ◌||◌, [], ◌∷◌, ◌++◌, ◌==◌, leb, ◌≡◌, ◌↔◌, refl, ap, arith, eqb→eq,
  if◌then◌else◌, Bool-cases, inl, inr,
}
use ch_tech_landing_page_bac.Errors.{ok}
use ch_tech_landing_page_bac.Text.{Str}
use ch_tech_landing_page_bac.Text.Regex.{
  Regex, class, seq, star, plus, Matches, matches_class, matches_seq, matches_done, matches_more,
  fullmatch,
}
use ch_tech_landing_page_bac.Text.Regex.Meaning.{fullmatch-Matches, seq_parts}
use ch_tech_landing_page_bac.Domain.ValueObjects.{slug_char, is_char, slug_re, make_slug}

-- The codes of `a` to `z` and of `0` to `9`.
abbrev pub is_word_char : ℕ → Bool
is_word_char c = (leb 97 c && leb c 122) || (leb 48 c && leb c 57)

-- Reading the text from left to right: a dash, whose code is 45, only after a character of a word,
-- and no dash at the end. `in_word` says whether the last character was one of a word.
abbrev pub reads_as_slug : Bool → Str → Bool
reads_as_slug in_word [] = in_word
reads_as_slug in_word (c ∷ s) =
    if is_word_char c then reads_as_slug true s else (c == 45 && in_word) && reads_as_slug false s

abbrev word : Regex
word = class slug_char

abbrev more_words : Regex
more_words = star (seq (class (is_char b'-')) (plus word))

class_part : {p : ℕ → Bool} {u : Str} → Matches (class p) u → (c : ℕ) × (p c ≡ true) × (u ≡ c ∷ [])
class_part (matches_class c h) = (c, h, refl)

-- A word of any length may stand after a character of a word.
reads-word :
    {u : Str} (v : Str) → Matches (star word) u → reads_as_slug true (u ++ v) ≡ reads_as_slug true v
reads-word v matches_done = refl
reads-word v (matches_more c s t a b same) =
    let (d, good, one) = class_part a in
    let is_c : c ≡ d = cc in
    let short : s ≡ [] = cc in rw (same, short, is_c, good) (reads-word v b)

reads-plus :
    {u : Str} (in_word : Bool) (v : Str)
    → Matches (plus word) u
    → reads_as_slug in_word (u ++ v) ≡ reads_as_slug true v
reads-plus in_word v m =
    let (s, t, a, b, same) = seq_parts m in
    let (c, good, one) = class_part a in rw (same, one, good) (reads-word v b)

dash_is_no_word : (c : ℕ) → is_char b'-' c ≡ true → (is_word_char c ≡ false) × (c == 45 ≡ true)
dash_is_no_word c h = (ground (arith, eqb→eq c 45 h), h)

reads-more_words : {v : Str} → Matches more_words v → reads_as_slug true v ≡ true
reads-more_words matches_done = refl
reads-more_words (matches_more c s t a b same) =
    let (s1, t1, first, rest, parts) = seq_parts a in
    let (d, good, one) = class_part first in
    let (no_word, is_dash) = dash_is_no_word d good in
    let is_c : c ≡ d = (let e = rw one at parts in cc) in
    let tail : s ≡ t1 = (let e = rw one at parts in cc) in
    rw (same, tail, is_c, no_word, is_dash, reads-plus false t rest) (reads-more_words b)

reads-slug : {s : Str} → Matches slug_re s → reads_as_slug false s ≡ true
reads-slug m =
    let (u, v, a, b, same) = seq_parts m in rw (same, reads-plus false v a) (reads-more_words b)

-- A text that goes on with the expression, and then with the words after it.
abbrev Splits : Regex → Str → Type 0
Splits r s = (u v : Str) × Matches r u × Matches more_words v × (s ≡ u ++ v)

one_more :
    (c : ℕ) (s : Str)
    → slug_char c ≡ true
    → Splits (star word) s
    → Splits (star word) (c ∷ s) × Splits (plus word) (c ∷ s)
one_more c s good (u, v, a, b, same) =
    let one : Matches word (c ∷ []) = matches_class c good in
    let all : c ∷ s ≡ c ∷ u ++ v = ap (λ t. c ∷ t) same in
    (
      (c ∷ u, v, matches_more c [] u one a refl, b, all),
      (c ∷ u, v, matches_seq (c ∷ []) u one a refl, b, all),
    )

after_dash : (c : ℕ) (s : Str) → c == 45 ≡ true → Splits (plus word) s → Splits (star word) (c ∷ s)
after_dash c s is_dash (u, v, a, b, same) = (
  [],
  c ∷ s,
  matches_done,
  matches_more c u v (matches_seq (c ∷ []) u (matches_class c is_dash) a refl) b
      (ap (λ t. c ∷ t) same),
  refl,
)

-- A text that reads as a slug within a word, and one at the start of a word.
splits :
    (s : Str)
    → (reads_as_slug true s ≡ true → Splits (star word) s)
      × (reads_as_slug false s ≡ true → Splits (plus word) s)
splits [] = ((λ h. ([], [], matches_done, matches_done, refl)), (λ h. absurd (cc)))
splits (c ∷ s) =
    let (in_word, at_word) = splits s in
    elim (Bool-cases (is_word_char c)) [
      | inl y ↦ (
        (λ h. (one_more c s y (in_word (rw y at h))).0),
        (λ h. (one_more c s y (in_word (rw y at h))).1),
      )
      | inr n ↦ (
        (λ h. let h' = rw n at h in after_dash c s (ground arith) (at_word (ground arith))),
        (λ h. absurd (
            let h' : ((c == 45 && false) && reads_as_slug false s) ≡ true = rw n at h in
            let bad : false ≡ true = ground arith in cc)),
      )
    ]

slug-reads : (s : Str) → reads_as_slug false s ≡ true → Matches slug_re s
slug-reads s h = let (u, v, a, b, same) = (splits s).1 h in matches_seq u v a b same

-- A text becomes a slug, unchanged, if and only if it reads as one from left to right: characters
-- `a` to `z` and `0` to `9`, and dashes that each follow such a character, with such a character at
-- the end.
pub make_slug-reads_as_slug :
    (s : Str) → (make_slug s ≡ ok (record { value = s })) ↔ (reads_as_slug false s ≡ true)
unfolding make_slug
make_slug-reads_as_slug s = elim (Bool-cases (fullmatch slug_re s)) [
  | inl good ↦ rw good ((λ _. reads-slug ((fullmatch-Matches slug_re s).0 good)), (λ _. refl))
  | inr bad ↦ rw bad (
    (λ e. absurd cc),
    (λ h. absurd (
        let good = (fullmatch-Matches slug_re s).1 (slug-reads s h) in
        let e : false ≡ true = rw bad at good in cc)),
  )
]
