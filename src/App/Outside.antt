-- ===== src/App/Outside.antt =====
-- What the program calls and does not implement: the clock, the random generators, `hashlib`,
-- `bcrypt`, PyJWT, Redis, and MySQL read through SQLAlchemy. `Env` has the operations; the laws
-- that they are documented to have are the records below it, premises of the theorems that need
-- them.
use ch_tech_landing_page_bac.Base.{
  suc, ◌+◌, ◌*◌, ltb, if◌then◌else◌, ◌⊎◌, ℕ, Bool, true, Option, none, some, List, [], ◌∷◌, ◌≡◌,
  filter, to_list, take, drop,
}
use ch_tech_landing_page_bac.Errors.{Result, ok, err, multiple_results_found}
use ch_tech_landing_page_bac.Text.{Str, Unicode, str_eq}
use ch_tech_landing_page_bac.Base.Int.{ℤ}
use ch_tech_landing_page_bac.Domain.Json.{Json}
use ch_tech_landing_page_bac.Domain.Time.{Time}
use ch_tech_landing_page_bac.Models.{Uuid, Db}
use ch_tech_landing_page_bac.Models.Constraints.{IsConsistent}
use mathlib.Core.List.{Perm}

-- app/core/config.py, `Settings`: what the modelled code reads of it.
pub record Settings : Type 0 where
  pub jwt_secret_key : Str
  pub jwt_algorithm : Str
  pub access_token_expire_minutes : ℕ
  pub refresh_token_expire_days : ℕ
  pub refresh_token_retention_days : ℕ
  pub seed_admin_name : Str
  pub seed_admin_email : Str
  pub seed_admin_password : Str
  pub resend_api_key : Option Str
  pub contact_notification_email : Option Str
  pub contact_notification_from : Str

-- The claims that `create_access_token` signs.
pub record Claims : Type 0 where
  pub sub : Str
  pub role : Str
  pub iat : Time
  pub exp : Time

-- Redis: for each key its counter and the time at which it expires, if it does.
abbrev pub Keyspace : Type 0
Keyspace = Str → Option (ℕ × Option Time)

pub record Env : Type 1 where
  pub settings : Settings
  pub unicode : Unicode
  -- The n-th reading of the clock and of the generators.
  pub clock_at : ℕ → Time
  pub uuid_at : ℕ → Uuid
  pub secret_at : ℕ → Str
  -- `hashlib.sha256(s.encode()).hexdigest()` and `bcrypt.checkpw`, which may raise.
  pub sha256_hex : Str → Str
  pub checkpw : Str → Str → Result Bool
  -- `bcrypt.hashpw(s, gensalt())` at the n-th salt, which may raise.
  pub hashpw : ℕ → Str → Result Str
  -- `jwt.encode(claims, key, algorithm)`, and `jwt.decode` at a time: the claim `sub`, if any.
  pub jwt_encode : Claims → Str → Str → Str
  pub jwt_decode : Time → Str → Str → Str → Result (Option Json)
  -- Whether the server takes the tables; where it does not, whether the driver reports a key (error
  -- codes of IntegrityError) and not the length of a value or a CHECK; `LOWER`; `=` and `<=` of its collation, and `ILIKE`.
  pub accepts : Db → Bool
  pub breaks_key : Db → Bool
  pub lower_text : Str → Str
  pub same_text : Str → Str → Bool
  pub text_le : Str → Str → Bool
  pub ilike : Str → Str → Bool
  -- `SELECT … WHERE` with `scalar_one_or_none`; with `scalars().all()`, in the server's order;
  -- and with `ORDER BY … LIMIT … OFFSET`: order, offset, limit.
  pub select_one : {Row : Type 0} → (Row → Bool) → List Row → Result (Option Row)
  pub select : {Row : Type 0} → (Row → Bool) → List Row → List Row
  pub page : {Row : Type 0} → (Row → Row → Bool) → ℕ → Option ℕ → List Row → List Row
  -- Whether the unit of work sees a change of a row, and so sets `updated_at`.
  pub is_modified : {Row : Type 0} → Row → Row → Bool
  -- Redis at a time of the server: `INCR`, `EXPIRE` with a number of seconds, and `TTL`.
  pub incr : Time → Str → Keyspace → ℕ × Keyspace
  pub expire : Time → Str → ℕ → Keyspace → Keyspace
  pub ttl : Time → Str → Keyspace → ℤ
  -- `str(u)` and `uuid.UUID(s)` for identifiers.
  pub uuid_text : Uuid → Str
  pub uuid_parse : Str → Result Uuid

-- `a` comes before `b`, or may as well.
abbrev pub IsSorted {ℓ} : {A : Type ℓ} → (A → A → Bool) → List A → Type 0
IsSorted le [] = Unit
IsSorted le (x ∷ []) = Unit
IsSorted le (x ∷ y ∷ l) = (le x y ≡ true) × IsSorted le (y ∷ l)

-- `OFFSET n LIMIT m`
abbrev pub slice {ℓ} : {A : Type ℓ} → ℕ → Option ℕ → List A → List A
slice n none xs = drop n xs
slice n (some m) xs = take m (drop n xs)

-- The documented behaviour of MySQL and SQLAlchemy.
pub record SqlLaws (env : Env) : Type 1 where
  pub one_found :
      {Row : Type 0} (p : Row → Bool) (rows : List Row) (found : Option Row)
      → filter p rows ≡ to_list found
      → env.select_one p rows ≡ ok found
  pub many_found :
      {Row : Type 0} (p : Row → Bool) (rows : List Row) (x y : Row) (more : List Row)
      → filter p rows ≡ x ∷ y ∷ more
      → env.select_one p rows ≡ err multiple_results_found
  pub select_perm :
      {Row : Type 0} (p : Row → Bool) (rows : List Row) → Perm (env.select p rows) (filter p rows)
  pub page_slice :
      {Row : Type 0} (le : Row → Row → Bool) (n : ℕ) (m : Option ℕ) (rows : List Row)
      → ((a b : Row) → (le a b ≡ true) ⊎ (le b a ≡ true))
      → (sorted : List Row) × Perm sorted rows
        × IsSorted le sorted
        × (env.page le n m rows ≡ slice n m sorted)
  pub accepts_sound :
      (db : Db) → env.accepts db ≡ true → IsConsistent env.same_text env.lower_text db
  pub same_refl : (a : Str) → env.same_text a a ≡ true
  pub same_sym : (a b : Str) → env.same_text a b ≡ true → env.same_text b a ≡ true
  pub same_trans :
      (a b c : Str) → env.same_text a b ≡ true → env.same_text b c ≡ true → env.same_text a c ≡ true

-- What a key counts and when it goes, seen at a time: a key whose time has come is gone.
abbrev pub live_count : Time → Option (ℕ × Option Time) → ℕ
live_count t none = 0
live_count t (some (n, none)) = n
live_count t (some (n, some e)) = if ltb t e then n else 0

abbrev pub live_deadline : Time → Option (ℕ × Option Time) → Option Time
live_deadline t none = none
live_deadline t (some (n, none)) = none
live_deadline t (some (n, some e)) = if ltb t e then some e else none

abbrev pub put : Str → Option (ℕ × Option Time) → Keyspace → Keyspace
put k v keys j = if str_eq j k then v else keys j

abbrev pub seconds : ℕ → ℕ
seconds n = n * 1_000_000

-- The documented behaviour of Redis: `INCR` counts from 0 if there is no key and keeps its time,
-- and `EXPIRE` sets the time of a key that there is.
pub record RedisLaws (env : Env) : Type 0 where
  pub incr_put :
      (t : Time) (k : Str) (keys : Keyspace)
      → env.incr t k keys ≡ (
        suc (live_count t (keys k)),
        put k (some (suc (live_count t (keys k)), live_deadline t (keys k))) keys,
      )
  pub expire_put :
      (t : Time) (k : Str) (s n : ℕ) (keys : Keyspace)
      → keys k ≡ some (suc n, none)
      → env.expire t k s keys ≡ put k (some (suc n, some (t + seconds s))) keys
