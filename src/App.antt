-- ===== src/App.antt =====
-- A call of the program: it reads and changes the world, and returns or raises. What is committed
-- or counted before an exception stays. `Env` holds what is not this repository's code.
pub mod Outside
pub mod Keeps
pub mod Rows
pub mod Pages
pub mod Tables
pub mod Returns
use ch_tech_landing_page_bac.Base.{
  ℕ, suc, Bool, true, false, Option, none, some, if◌then◌else◌, ◌≡◌, refl, Bool-cases, inl, inr,
}
use ch_tech_landing_page_bac.Errors.{Error, integrity_error, database_error, Result, ok, err}
use ch_tech_landing_page_bac.Text.{Str}
use ch_tech_landing_page_bac.Domain.Time.{Time}
use ch_tech_landing_page_bac.Models.{Uuid, Db}
use Outside.{Env, Keyspace}

-- The database, Redis, and how often the clock and the two generators were read.
pub record World : Type 0 where
  pub db : Db
  pub redis : Keyspace
  pub clock : ℕ
  pub uuids : ℕ
  pub secrets : ℕ

abbrev pub App {ℓ} : Type ℓ → Type ℓ
App A = World → Result A × World

abbrev pub next {ℓ κ} :
    {A : Type ℓ} {B : Type κ} → Result A × World → (A → App B) → Result B × World
next (ok a, w) f = f a w
next (err e, w) f = (err e, w)

infixl 5 ◌>>=◌ ◌>>◌
unfoldable pub ◌>>=◌ {ℓ κ} : {A : Type ℓ} {B : Type κ} → App A → (A → App B) → App B
◌>>=◌ m f w = next (m w) f

unfoldable pub ◌>>◌ {ℓ} : {B : Type ℓ} → App (Unit {0}) → App B → App B
◌>>◌ m k w = next (m w) (λ _. k)

unfoldable pub pure {ℓ} : {A : Type ℓ} → A → App A
pure a w = (ok a, w)

unfoldable pub raise {ℓ} : {A : Type ℓ} → Error → App A
raise e w = (err e, w)

-- A computation that may raise and changes nothing.
unfoldable pub lift {ℓ} : {A : Type ℓ} → Result A → App A
lift r w = (r, w)

unfoldable pub get_db : App Db
get_db w = (ok w.db, w)

-- `raise … if the result is None`
unfoldable pub or_raise {ℓ} : {A : Type ℓ} → Option A → Error → App A
or_raise none e = raise e
or_raise (some a) e = pure a

unfoldable pub raise_if : Bool → Error → App (Unit {0})
raise_if true e = raise e
raise_if false e = pure tt

-- `try: … except IntegrityError: raise e`
abbrev pub on_integrity : Error → Result (Unit {0}) × World → Result (Unit {0}) × World
on_integrity e (ok a, w) = (ok a, w)
on_integrity e (err integrity_error, w) = (err e, w)
on_integrity e (err other, w) = (err other, w)

unfoldable pub integrity_as : App (Unit {0}) → Error → App (Unit {0})
integrity_as m e w = on_integrity e (m w)

module _ (env : Env) where
  -- `datetime.now(UTC)`
  unfoldable pub now : App Time
  now w = (ok (env.clock_at w.clock), record w { clock = suc w.clock })

  -- `uuid.uuid4()`
  unfoldable pub uuid4 : App Uuid
  uuid4 w = (ok (env.uuid_at w.uuids), record w { uuids = suc w.uuids })

  -- `secrets.token_urlsafe(32)`
  unfoldable pub token_urlsafe : App Str
  token_urlsafe w = (ok (env.secret_at w.secrets), record w { secrets = suc w.secrets })

  -- What the server's refusal of the tables is raised as: IntegrityError, or another DatabaseError
  -- (DataError for a text that is too long, OperationalError for a CHECK).
  abbrev pub refusal : Db → Error
  refusal db = if env.breaks_key db then integrity_error else database_error

  -- What a refusal comes out as where `except IntegrityError` raises `e`.
  abbrev pub refused_as : Db → Error → Error
  refused_as db e = if env.breaks_key db then e else database_error

  -- `session.commit()`, where the session's pending changes make the tables `db`. A refusal rolls
  -- them back and raises what the driver reports.
  unfoldable pub commit : Db → App (Unit {0})
  commit db w = if env.accepts db then (ok tt, record w { db = db }) else (err (refusal db), w)

  -- A query sends the pending changes first (autoflush), which checks them and commits nothing.
  unfoldable pub flush : Db → App (Unit {0})
  flush db w = (if env.accepts db then ok tt else err (refusal db), w)

pub on_integrity-refusal :
    (env : Env) (db : Db) (e : Error) (w : World)
    → on_integrity e (err (refusal env db), w) ≡ (err (refused_as env db e), w)
on_integrity-refusal env db e w = elim (Bool-cases (env.breaks_key db)) [
  | inl y ↦ rw y refl
  | inr n ↦ rw n refl
]

-- To run a call: `unfolding run_app`.
unfoldable pub run_app : Unit {0}
unfolding ◌>>=◌ ◌>>◌ pure raise lift get_db or_raise raise_if integrity_as now uuid4 token_urlsafe
    commit flush
run_app = tt
