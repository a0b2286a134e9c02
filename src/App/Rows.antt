-- ===== src/App/Rows.antt =====
-- Steps that the repositories share: texts that become value objects, the row of a key, and the
-- time of an update.
use ch_tech_landing_page_bac.Base.{
  Bool, true, false, ◌&&◌, Option, none, some, List, [], ◌∷◌, ◌≡◌, ◌==◌, arith, eqb→eq, refl,
  if◌then◌else◌, find,
}
use ch_tech_landing_page_bac.Base.Keys.{Distinct, filter-find}
use ch_tech_landing_page_bac.Errors
use ch_tech_landing_page_bac.Errors.{Error, Result, ok, err}
use ch_tech_landing_page_bac.Text.{Str}
use ch_tech_landing_page_bac.Domain.Time.{Time}
use ch_tech_landing_page_bac.Models.{Uuid, Db}
use ch_tech_landing_page_bac.App.{App, World, next, or_raise, run_app, now, pure, raise, flush}
use ch_tech_landing_page_bac.App.Outside.{Env, SqlLaws}

-- `f(s) if s else None`: an empty text counts as none.
abbrev pub if_text : {A : Type 0} → (Str → Result A) → Option Str → Result (Option A)
if_text f none = ok none
if_text f (some []) = ok none
if_text f (some (c ∷ s)) = Errors.◌>>=◌ (f (c ∷ s)) λ a. ok (some a)

-- `if not deleted: raise …`
abbrev pub unless_raise : Bool → Error → App (Unit {0})
unless_raise true e = pure tt
unless_raise false e = raise e

-- A row that was found comes out of `optional` and `or_raise` as it reads.
pub found_row :
    {A : Type 0} (r : Result A) (e : Error) (w : World)
    → next (Errors.◌>>=◌ r (λ a. ok (some a)), w) (λ found. or_raise found e) ≡ (r, w)
unfolding or_raise run_app
found_row (ok a) e w = refl
found_row (err x) e w = refl

module _ (env : Env) where
  -- `column == s` of a nullable column: NULL is equal to nothing.
  abbrev pub column_is : Option Str → Str → Bool
  column_is none s = false
  column_is (some c) s = env.same_text c s

  -- `updated_at` of a row that an update may have changed (`onupdate=utcnow`).
  unfoldable pub updated_time : {Row : Type 0} → Row → Row → Time → App Time
  updated_time old new stamp = if env.is_modified old new then now env else pure stamp

  -- `_get_technologies` of an update: its query, which runs unless there are no identifiers, sends
  -- the pending changes, outside the `try` around the commit.
  unfoldable pub autoflush : List Uuid → Db → App (Unit {0})
  autoflush [] db = pure tt
  autoflush (k ∷ ks) db = flush env db

  module _ (laws : SqlLaws env) where
    -- A unique column of numbers finds the row with the value.
    pub select_id :
        {Row : Type 0} (id : Row → Uuid) (k : Uuid) (rows : List Row)
        → Distinct (λ a b. id a == id b) rows
        → env.select_one (λ r. id r == k) rows ≡ ok (find (λ r. id r == k) rows)
    select_id id k rows d =
        laws.one_found (λ r. id r == k) rows (find (λ r. id r == k) rows)
          (filter-find (λ a b. id a == id b) (λ r. id r == k) rows
            (λ a b p q. ground (arith, eqb→eq (id a) k p, eqb→eq (id b) k q)) d)

    -- A unique column of texts does so up to the collation, with a further condition.
    pub select_text :
        {Row : Type 0} (key : Row → Str) (s : Str) (keep : Row → Bool) (rows : List Row)
        → Distinct (λ a b. env.same_text (key a) (key b)) rows
        → env.select_one (λ r. env.same_text (key r) s && keep r) rows
          ≡ ok (find (λ r. env.same_text (key r) s && keep r) rows)
    select_text {Row} key s keep rows d =
        let p : Row → Bool = λ r. env.same_text (key r) s && keep r in
        laws.one_found p rows (find p rows) (
          filter-find (λ a b. env.same_text (key a) (key b)) p rows
            (λ a b x y.
              laws.same_trans (key a) s (key b) (ground arith)
                (laws.same_sym (key b) s (ground arith)))
            d)

    -- A test that implies the value of a unique column of texts selects one row at most.
    pub select_by_text :
        {Row : Type 0} (key : Row → Str) (s : Str) (p : Row → Bool) (rows : List Row)
        → ((r : Row) → p r ≡ true → env.same_text (key r) s ≡ true)
        → Distinct (λ a b. env.same_text (key a) (key b)) rows
        → env.select_one p rows ≡ ok (find p rows)
    select_by_text key s p rows fits d = laws.one_found p rows (find p rows) (
        filter-find (λ a b. env.same_text (key a) (key b)) p rows
          (λ a b x y.
            laws.same_trans (key a) s (key b) (fits a x) (laws.same_sym (key b) s (fits b y)))
          d)

    -- The same for a unique column of identifiers.
    pub select_by_id :
        {Row : Type 0} (id : Row → Uuid) (k : Uuid) (p : Row → Bool) (rows : List Row)
        → ((r : Row) → p r ≡ true → (id r == k) ≡ true)
        → Distinct (λ a b. id a == id b) rows
        → env.select_one p rows ≡ ok (find p rows)
    select_by_id id k p rows fits d = laws.one_found p rows (find p rows) (
        filter-find (λ a b. id a == id b) p rows
          (λ a b x y. ground (arith, eqb→eq (id a) k (fits a x), eqb→eq (id b) k (fits b y))) d)
