-- ===== src/Base/Stores.antt =====
-- A table with a key as a map from keys to rows: what its updates and deletions are there.
use ch_tech_landing_page_bac.Base.Keys.{update_where, delete_where}
use ch_tech_landing_page_bac.Base.Lists.{find}
use ch_tech_landing_page_bac.Base.Tests.{if◌then◌else◌, Bool-cases, ◌==◌, eqb→eq, eqb_refl}
use mathlib.Core.Bool.{Bool, true, false}
use mathlib.Core.List.{List, [], ◌∷◌}
use mathlib.Core.Logic.{inl, inr}
use mathlib.Core.Option.{none, some}
use mathlib.Core.Path.{◌≡◌, refl}
use native.Mathlib.Omega.{arith}
use Prim.Native.Nat.{ℕ}

module _ {A : Type 0} (id : A → ℕ) where
  abbrev pub keyed : ℕ → A → Bool
  keyed k x = id x == k

  pub find-update_where-other :
      (j k : ℕ) (c : A) (xs : List A)
      → id c ≡ j
      → (j == k) ≡ false
      → find (keyed k) (update_where (keyed j) (λ _. c) xs) ≡ find (keyed k) xs
  find-update_where-other j k c [] e h = refl
  find-update_where-other j k c (x ∷ xs) e h =
      let rest = find-update_where-other j k c xs e h in
      elim (Bool-cases (id x == j)) [
        | inl y ↦
            let miss : (id c == k) ≡ false = ground arith in
            let miss' : (id x == k) ≡ false = ground (arith, eqb→eq (id x) j y) in
            rw (y, miss, miss') rest
        | inr n ↦ rw (n, rest) refl
      ]

  pub find-update_where-same :
      (j : ℕ) (c m : A) (xs : List A)
      → id c ≡ j
      → find (keyed j) xs ≡ some m
      → find (keyed j) (update_where (keyed j) (λ _. c) xs) ≡ some c
  find-update_where-same j c m [] e h = absurd (cc)
  find-update_where-same j c m (x ∷ xs) e h = elim (Bool-cases (id x == j)) [
    | inl y ↦ (let hit : (id c == j) ≡ true = ground (arith, eqb_refl j) in rw (y, hit) refl)
    | inr n ↦ (let h' = rw n at h in rw (n, n) (find-update_where-same j c m xs e h'))
  ]

  pub find-delete_where-other :
      (j k : ℕ) (xs : List A)
      → (j == k) ≡ false
      → find (keyed k) (delete_where (keyed j) xs) ≡ find (keyed k) xs
  find-delete_where-other j k [] h = refl
  find-delete_where-other j k (x ∷ xs) h =
      let rest = find-delete_where-other j k xs h in
      elim (Bool-cases (id x == j)) [
        | inl y ↦
            (let miss : (id x == k) ≡ false = ground (arith, eqb→eq (id x) j y) in
              rw (y, miss) rest)
        | inr n ↦ rw (n, rest) refl
      ]

  pub find-delete_where-same :
      (j : ℕ) (xs : List A) → find (keyed j) (delete_where (keyed j) xs) ≡ none
  find-delete_where-same j [] = refl
  find-delete_where-same j (x ∷ xs) = elim (Bool-cases (id x == j)) [
    | inl y ↦ rw y (find-delete_where-same j xs)
    | inr n ↦ rw (n, n) (find-delete_where-same j xs)
  ]

  -- An update of the row that a key finds: under its key there is the new row, elsewhere what was.
  pub find-update_where :
      (c m : A) (k : ℕ) (xs : List A)
      → id c ≡ id m
      → find (keyed (id m)) xs ≡ some m
      → find (keyed k) (update_where (keyed (id m)) (λ _. c) xs)
        ≡ (if id c == k then some c else find (keyed k) xs)
  find-update_where c m k xs e h = elim (Bool-cases (id c == k)) [
    | inl y ↦
        let p : k ≡ id m = ground (arith, eqb→eq (id c) k y) in
        rw (y, p) (find-update_where-same (id m) c m xs e h)
    | inr n ↦ rw n (find-update_where-other (id m) k c xs e (ground arith))
  ]

  -- A deletion by a key.
  pub find-delete_where :
      (j k : ℕ) (xs : List A)
      → find (keyed k) (delete_where (keyed j) xs) ≡ (if j == k then none else find (keyed k) xs)
  find-delete_where j k xs = elim (Bool-cases (j == k)) [
    | inl y ↦
        (let p : k ≡ j = ground (arith, eqb→eq j k y) in rw (y, p) (find-delete_where-same j xs))
    | inr n ↦ rw n (find-delete_where-other j k xs n)
  ]
