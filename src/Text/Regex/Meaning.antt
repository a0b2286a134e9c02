-- ===== src/Text/Regex/Meaning.antt =====
-- The derivative matcher and the meaning of a pattern.
use ch_tech_landing_page_bac.Base.{
  ℕ, Bool, true, false, ◌≡◌, ◌↔◌, refl, [], ◌∷◌, ◌++◌, arith, ap, sym, ◌∙◌, if◌then◌else◌,
  Bool-cases, inl, inr,
}
use ch_tech_landing_page_bac.Text.{Str}
use ch_tech_landing_page_bac.Text.Regex.{
  Regex, nothing, empty, class, seq, alt, star, Matches, matches_empty, matches_class, matches_seq,
  matches_left, matches_right, matches_done, matches_more, nullable, derive, fullmatch,
}

pub seq_parts :
    {r q : Regex} {u : Str}
    → Matches (seq r q) u
    → (s : Str) × (t : Str) × Matches r s × Matches q t × (u ≡ s ++ t)
seq_parts (matches_seq s t a b e) = (s, t, a, b, e)

nullable_sound : (r : Regex) → nullable r ≡ true → Matches r []
unfolding nullable
nullable_sound nothing h = absurd (cc)
nullable_sound empty h = matches_empty
nullable_sound (class p) h = absurd (cc)
nullable_sound (seq r q) h =
    matches_seq [] [] (nullable_sound r (ground arith)) (nullable_sound q (ground arith)) refl
nullable_sound (alt r q) h = elim (Bool-cases (nullable r)) [
  | inl e ↦ matches_left (nullable_sound r e)
  | inr e ↦ matches_right (nullable_sound q (ground arith))
]
nullable_sound (star r) h = matches_done

nullable_complete : {r : Regex} {u : Str} → Matches r u → u ≡ [] → nullable r ≡ true
unfolding nullable
nullable_complete matches_empty e = refl
nullable_complete (matches_class c p) e = absurd (cc)
nullable_complete (matches_seq [] t a b same) e =
    ground (arith, nullable_complete a refl, nullable_complete b (cc))
nullable_complete (matches_seq (c ∷ s) t a b same) e = absurd (cc)
nullable_complete (matches_left a) e = ground (arith, nullable_complete a e)
nullable_complete (matches_right b) e = ground (arith, nullable_complete b e)
nullable_complete matches_done e = refl
nullable_complete (matches_more c s t a b same) e = refl

empty_of_class :
    {s : Str} (b : Bool) → Matches (if b then empty else nothing) s → (b ≡ true) × (s ≡ [])
empty_of_class true matches_empty = (refl, refl)
empty_of_class false h = elim h [ ]

derive_sound : (c : ℕ) (r : Regex) {s : Str} → Matches (derive c r) s → Matches r (c ∷ s)
unfolding derive
derive_sound c nothing h = elim h [ ]
derive_sound c empty h = elim h [ ]
derive_sound c (class p) h =
    let (pass, done) = empty_of_class (p c) h in rw done (matches_class c pass)
derive_sound c (seq r q) {s} h =
    split (nullable r) refl h (λ t m. derive_sound c r m) (λ t m. derive_sound c q m)
  where
    front :
        ((t : Str) → Matches (derive c r) t → Matches r (c ∷ t))
        → Matches (seq (derive c r) q) s
        → Matches (seq r q) (c ∷ s)
    front one m =
        let (t, t', a, b, e) = seq_parts m in matches_seq (c ∷ t) t' (one t a) b (ap (◌∷◌ c) e)

    split :
        (b : Bool)
        → nullable r ≡ b
        → Matches (if b then alt (seq (derive c r) q) (derive c q) else seq (derive c r) q) s
        → ((t : Str) → Matches (derive c r) t → Matches r (c ∷ t))
        → ((t : Str) → Matches (derive c q) t → Matches q (c ∷ t))
        → Matches (seq r q) (c ∷ s)
    split true e (matches_left m) one two = front one m
    split true e (matches_right m) one two =
        matches_seq [] (c ∷ s) (nullable_sound r e) (two s m) refl
    split false e m one two = front one m
derive_sound c (alt r q) (matches_left a) = matches_left (derive_sound c r a)
derive_sound c (alt r q) (matches_right a) = matches_right (derive_sound c q a)
derive_sound c (star r) h =
    let (s, t, a, b, e) = seq_parts h in matches_more c s t (derive_sound c r a) b (ap (◌∷◌ c) e)

heads : {c d : ℕ} {s t : Str} → c ∷ s ≡ d ∷ t → (c ≡ d) × (s ≡ t)
heads e = (cc, cc)

derive_complete :
    {r : Regex} {u : Str} → Matches r u → (c : ℕ) (s : Str) → u ≡ c ∷ s → Matches (derive c r) s
unfolding derive
derive_complete matches_empty c s e = absurd (cc)
derive_complete (matches_class d p) c s e =
    let (one, two) = heads e in rw (← one, p, ← two) matches_empty
derive_complete (matches_seq {r} {q} [] t a b same) c s e =
    rw (nullable_complete a refl) (matches_right (derive_complete b c s (sym same ∙ e)))
derive_complete (matches_seq {r} {q} (d ∷ s') t a b same) c s e =
    let (one, two) = heads (sym same ∙ e) in
    let m : Matches (seq (derive c r) q) s =
      matches_seq s' t (derive_complete a c s' (ap (λ x. x ∷ s') one)) b (sym two) in
    elim (Bool-cases (nullable r)) [ inl n ↦ rw n (matches_left m) | inr n ↦ rw n m ]
derive_complete (matches_left a) c s e = matches_left (derive_complete a c s e)
derive_complete (matches_right b) c s e = matches_right (derive_complete b c s e)
derive_complete matches_done c s e = absurd (cc)
derive_complete (matches_more {r} d s' t a b same) c s e =
    let (one, two) = heads (sym same ∙ e) in
    matches_seq s' t (derive_complete a c s' (ap (λ x. x ∷ s') one)) b (sym two)

fullmatch_sound : (r : Regex) (s : Str) → fullmatch r s ≡ true → Matches r s
unfolding fullmatch
fullmatch_sound r [] h = nullable_sound r h
fullmatch_sound r (c ∷ s) h = derive_sound c r (fullmatch_sound (derive c r) s h)

fullmatch_complete : (r : Regex) (s : Str) → Matches r s → fullmatch r s ≡ true
unfolding fullmatch
fullmatch_complete r [] m = nullable_complete m refl
fullmatch_complete r (c ∷ s) m = fullmatch_complete (derive c r) s (derive_complete m c s refl)

-- `fullmatch` accepts exactly the texts that the pattern means.
pub fullmatch-Matches : (r : Regex) (s : Str) → (fullmatch r s ≡ true) ↔ Matches r s
fullmatch-Matches r s = (fullmatch_sound r s, fullmatch_complete r s)
