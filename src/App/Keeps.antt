-- ===== src/App/Keeps.antt =====
-- Invariants of calls: what holds of the world before a call holds after it, whether the call
-- returns or raises, and what it returns satisfies a postcondition.
use ch_tech_landing_page_bac.Base.{
  if◌then◌else◌, Bool-cases, inl, inr, Bool, true, false, Option, none, some, ◌≡◌,
}
use ch_tech_landing_page_bac.Errors.{Error, Result, ok, err}
use ch_tech_landing_page_bac.Models.{Db}
use ch_tech_landing_page_bac.App.{
  App, World, next, ◌>>=◌, ◌>>◌, pure, raise, lift, or_raise, raise_if, commit,
}
use ch_tech_landing_page_bac.App.Outside.{Env}

abbrev pub Post : {A : Type 0} → (A → Type 0) → Result A → Type 0
Post Q (ok a) = Q a
Post Q (err e) = Unit

-- No promise on the value.
abbrev pub Anything : {A : Type 0} → A → Type 0
Anything _ = Unit

-- A record, so that the call can be read off the statement.
pub record Yields (I : World → Type 0) {A : Type 0} (m : App A) (Q : A → Type 0) : Type 0 where
  pub run : (w : World) → I w → I (m w).1 × Post Q (m w).0

pub anything : {A : Type 0} (r : Result A) → Post Anything r
anything (ok a) = tt
anything (err e) = tt

module _ {I : World → Type 0} where
  next-Yields :
      {A B : Type 0} (Q : A → Type 0) (R : B → Type 0) (r : Result A × World) (f : A → App B)
      → I r.1 × Post Q r.0
      → ((a : A) → Q a → Yields I (f a) R)
      → I (next r f).1 × Post R (next r f).0
  next-Yields Q R (ok a, w) f (i, q) k = (k a q).run w i
  next-Yields Q R (err e, w) f (i, _) k = (i, tt)

  pub bind-Yields :
      {A B : Type 0} {Q : A → Type 0} {R : B → Type 0} {m : App A} {f : A → App B}
      → Yields I m Q
      → ((a : A) → Q a → Yields I (f a) R)
      → Yields I (m >>= f) R
  unfolding ◌>>=◌
  bind-Yields {Q} {R} {m} {f} h k = record { run = λ w i. next-Yields Q R (m w) f (h.run w i) k }

  pub then-Yields :
      {B : Type 0} {Q : Unit {0} → Type 0} {R : B → Type 0} {m : App (Unit {0})} {k : App B}
      → Yields I m Q
      → Yields I k R
      → Yields I (m >> k) R
  unfolding ◌>>◌
  then-Yields {Q} {R} {m} {k} h g = record {
    run = λ w i. next-Yields Q R (m w) (λ _. k) (h.run w i) (λ _ _. g);
  }

  pub pure-Yields : {A : Type 0} {Q : A → Type 0} (a : A) → Q a → Yields I (pure a) Q
  unfolding pure
  pure-Yields a q = record { run = λ w i. (i, q) }

  pub raise-Yields : {A : Type 0} {Q : A → Type 0} (e : Error) → Yields I (raise e) Q
  unfolding raise
  raise-Yields e = record { run = λ w i. (i, tt) }

  pub lift-Yields : {A : Type 0} (r : Result A) → Yields I (lift r) Anything
  unfolding lift
  lift-Yields r = record { run = λ w i. (i, anything r) }

  pub or_raise-Yields : {A : Type 0} (o : Option A) (e : Error) → Yields I (or_raise o e) Anything
  unfolding or_raise
  or_raise-Yields none e = raise-Yields e
  or_raise-Yields (some a) e = pure-Yields a tt

  pub raise_if-Yields : (b : Bool) (e : Error) → Yields I (raise_if b e) Anything
  unfolding raise_if
  raise_if-Yields true e = raise-Yields e
  raise_if-Yields false e = pure-Yields tt tt

  pub if-Yields :
      {A : Type 0} {Q : A → Type 0} {m n : App A} (b : Bool)
      → Yields I m Q
      → Yields I n Q
      → Yields I (if b then m else n) Q
  if-Yields true h k = h
  if-Yields false h k = k

-- A commit: the tables become the new ones if the server takes them, and stay as they are if not.
pub commit_cases :
    (env : Env) (db : Db) (w : World) (P : World → Type 0)
    → P w
    → (env.accepts db ≡ true → P (record w { db = db }))
    → P (commit env db w).1
unfolding commit
commit_cases env db w P old new = elim (Bool-cases (env.accepts db)) [
  | inl e ↦ rw e (new e)
  | inr e ↦ rw e old
]

pub commit-Yields :
    {I : World → Type 0} (env : Env) (db : Db)
    → ((w : World) → I w → I (record w { db = db }))
    → Yields I (commit env db) Anything
commit-Yields {I} env db new = record {
  run = λ w i. (commit_cases env db w I i (λ _. new w i), anything (commit env db w).0);
}
