-- ===== src/App/Tables.antt =====
-- What a call does to the tables: one rule for each way to build a call, for a property of the
-- tables that the call keeps, whether it returns or raises.
use ch_tech_landing_page_bac.Base.{
  if◌then◌else◌, Bool-cases, inl, inr, Bool, true, false, Option, none, some, List, [], ◌∷◌, ◌≡◌,
  refl,
}
use ch_tech_landing_page_bac.Errors.{Error, Result, ok, err, integrity_error}
use ch_tech_landing_page_bac.Domain.Time.{Time}
use ch_tech_landing_page_bac.Models.{Uuid, Db}
use ch_tech_landing_page_bac.App.{
  App, World, next, ◌>>=◌, ◌>>◌, pure, raise, lift, get_db, or_raise, raise_if, integrity_as, now,
  uuid4, token_urlsafe, commit, flush, on_integrity,
}
use ch_tech_landing_page_bac.App.Outside.{Env}
use ch_tech_landing_page_bac.App.Rows.{updated_time, autoflush, unless_raise}

-- `m` keeps `P` of the tables.
pub record Keeps (P : Db → Type 0) {A : Type 0} (m : App A) : Type 0 where
  pub at : (w : World) → P w.db → P (m w).1.db

module _ {P : Db → Type 0} {A : Type 0} where
  pub Keeps-pure : (a : A) → Keeps P (pure a)
  unfolding pure
  Keeps-pure a = record { at = λ w h. h }

  pub Keeps-raise : (e : Error) → Keeps P (raise {A = A} e)
  unfolding raise
  Keeps-raise e = record { at = λ w h. h }

  pub Keeps-lift : (r : Result A) → Keeps P (lift r)
  unfolding lift
  Keeps-lift r = record { at = λ w h. h }

  pub Keeps-or_raise : (o : Option A) (e : Error) → Keeps P (or_raise o e)
  unfolding or_raise
  Keeps-or_raise none e = Keeps-raise e
  Keeps-or_raise (some a) e = Keeps-pure a

  pub Keeps-if : (b : Bool) (m n : App A) → Keeps P m → Keeps P n → Keeps P (if b then m else n)
  Keeps-if true m n h k = h
  Keeps-if false m n h k = k

tables-on_integrity : (e : Error) (r : Result (Unit {0}) × World) → (on_integrity e r).1.db ≡ r.1.db
tables-on_integrity e (ok a, w) = refl
tables-on_integrity e (err integrity_error, w) = refl
tables-on_integrity e (err _, w) = refl

module _ {P : Db → Type 0} where
  pub Keeps-get_db : Keeps P get_db
  unfolding get_db
  Keeps-get_db = record { at = λ w h. h }

  pub Keeps-raise_if : (b : Bool) (e : Error) → Keeps P (raise_if b e)
  unfolding raise_if
  Keeps-raise_if true e = Keeps-raise e
  Keeps-raise_if false e = Keeps-pure tt

  pub Keeps-unless_raise : (b : Bool) (e : Error) → Keeps P (unless_raise b e)
  Keeps-unless_raise true e = Keeps-pure tt
  Keeps-unless_raise false e = Keeps-raise e

  next-Keeps :
      {A B : Type 0} (r : Result A × World) (f : A → App B)
      → P r.1.db
      → ((a : A) → Keeps P (f a))
      → P (next r f).1.db
  next-Keeps (ok a, w) f h k = (k a).at w h
  next-Keeps (err e, w) f h k = h

  pub Keeps-bind :
      {A B : Type 0} (m : App A) (f : A → App B)
      → Keeps P m
      → ((a : A) → Keeps P (f a))
      → Keeps P (m >>= f)
  unfolding ◌>>=◌
  Keeps-bind m f h k = record { at = λ w i. next-Keeps (m w) f (h.at w i) k }

  pub Keeps-then :
      {B : Type 0} (m : App (Unit {0})) (n : App B) → Keeps P m → Keeps P n → Keeps P (m >> n)
  unfolding ◌>>◌
  Keeps-then m n h k = record { at = λ w i. next-Keeps (m w) (λ _. n) (h.at w i) (λ _. k) }

  pub Keeps-integrity_as : (m : App (Unit {0})) (e : Error) → Keeps P m → Keeps P (integrity_as m e)
  unfolding integrity_as
  Keeps-integrity_as m e h = record { at = λ w i. rw (tables-on_integrity e (m w)) (h.at w i) }

  module _ (env : Env) where
    pub Keeps-now : Keeps P (now env)
    unfolding now
    Keeps-now = record { at = λ w h. h }

    pub Keeps-uuid4 : Keeps P (uuid4 env)
    unfolding uuid4
    Keeps-uuid4 = record { at = λ w h. h }

    pub Keeps-token_urlsafe : Keeps P (token_urlsafe env)
    unfolding token_urlsafe
    Keeps-token_urlsafe = record { at = λ w h. h }

    pub Keeps-flush : (db : Db) → Keeps P (flush env db)
    unfolding flush
    Keeps-flush db = record { at = λ w h. h }

    pub Keeps-autoflush : (ks : List Uuid) (db : Db) → Keeps P (autoflush env ks db)
    unfolding autoflush
    Keeps-autoflush [] db = Keeps-pure tt
    Keeps-autoflush (k ∷ ks) db = Keeps-flush db

    pub Keeps-updated_time :
        {Row : Type 0} (old new : Row) (t : Time) → Keeps P (updated_time env old new t)
    unfolding updated_time
    Keeps-updated_time old new t = Keeps-if _ _ _ Keeps-now (Keeps-pure t)

    -- A commit keeps what the server asks of the tables that it takes.
    pub Keeps-commit :
        ((db : Db) → env.accepts db ≡ true → P db) → (db : Db) → Keeps P (commit env db)
    unfolding commit
    Keeps-commit sound db = record {
      at = λ w h. elim (Bool-cases (env.accepts db)) [ inl e ↦ rw e (sound db e) | inr e ↦ rw e h ];
    }

-- Without `commit`: the rules for calls that read.
pub ruleset reads_rules = (
  Keeps-pure, Keeps-raise, Keeps-lift, Keeps-or_raise, Keeps-if, Keeps-get_db, Keeps-raise_if,
  Keeps-unless_raise, Keeps-bind, Keeps-then, Keeps-now,
)

pub ruleset writes_rules = (
  reads_rules, Keeps-integrity_as, Keeps-uuid4, Keeps-token_urlsafe, Keeps-flush, Keeps-autoflush,
  Keeps-updated_time, Keeps-commit,
)
