-- ===== src/App/Returns.antt =====
-- Calls that return: what their parts did.
use ch_tech_landing_page_bac.Base.{◌≡◌, ◌∙◌, refl, ap, Option, none, some, Bool-cases, inl, inr}
use ch_tech_landing_page_bac.Errors.{Error, Result, ok, err, optional, bind_ok}
use ch_tech_landing_page_bac.App.{App, World, next, ◌>>=◌, ◌>>◌, or_raise, commit, lift, run_app}
use ch_tech_landing_page_bac.App.Outside.{Env}
use ch_tech_landing_page_bac.Models.{Db}

-- A chain that returns returns from its rest, in a later world.
pub next-ok :
    {A B : Type 0} (r : Result A × World) (f : A → App B) (b : B)
    → (next r f).0 ≡ ok b
    → (a : A) × (w : World) × (r ≡ (ok a, w)) × (next r f ≡ f a w) × ((f a w).0 ≡ ok b)
next-ok (ok a, w) f b e = (a, w, refl, refl, e)
next-ok (err x, w) f b e = absurd (cc)

pub next-result :
    {A B : Type 0} (r : Result A × World) (f : A → App B) (a : A) → r.0 ≡ ok a → next r f ≡ f a r.1
next-result (ok a', w) f a e = ap (λ r. next (r, w) f) e
next-result (err x, w) f a e = absurd (cc)

pub bind-ok :
    {A B : Type 0} (m : App A) (f : A → App B) (b : B) (w : World)
    → ((m >>= f) w).0 ≡ ok b
    → (a : A) × (w' : World) × (m w ≡ (ok a, w')) × ((m >>= f) w ≡ f a w') × ((f a w').0 ≡ ok b)
unfolding ◌>>=◌
bind-ok m f b w e = next-ok (m w) f b e

pub then-ok :
    {B : Type 0} (m : App (Unit {0})) (n : App B) (b : B) (w : World)
    → ((m >> n) w).0 ≡ ok b
    → (w' : World) × ((m >> n) w ≡ n w') × ((n w').0 ≡ ok b)
unfolding ◌>>◌
then-ok m n b w e = let (_, w', _, same, good) = next-ok (m w) (λ _. n) b e in (w', same, good)

abbrev or_else : {A : Type 0} → A → Result A → A
or_else b (ok a) = a
or_else b (err e) = b

-- What a call that returned found.
pub found-ok :
    {A : Type 0} (o : Option A) (e : Error) (a : A) (w : World)
    → (or_raise o e w).0 ≡ ok a
    → (o ≡ some a) × (or_raise o e w ≡ (ok a, w))
unfolding or_raise run_app
found-ok none e a w h = absurd (cc)
found-ok (some b) e a w h = (ap some (ap (λ r. or_else b r) h), ap (λ r. (r, w)) h)

abbrev ok_or : {B : Type 0} → B → Result (Option B) → Result B
ok_or b (ok (some c)) = ok c
ok_or b (ok none) = ok b
ok_or b (err e) = err e

-- What `f(x) if x is not None else None` returned.
pub optional-ok :
    {A B : Type 0} (f : A → Result B) (a : A) (b : B)
    → optional f (some a) ≡ ok (some b)
    → f a ≡ ok b
optional-ok f a b h =
    let (c, e, last) = bind_ok (f a) (λ y. ok (some y)) (some b) h in e ∙ ap (λ r. ok_or c r) last

-- A commit that a call returned from was taken.
pub committed :
    {A : Type 0} (env : Env) (db : Db) (r : Result A) (a : A) (w : World)
    → ((commit env db >> lift r) w).0 ≡ ok a
    → (commit env db >> lift r) w ≡ (r, record w { db = db })
unfolding run_app
committed env db r a w e = elim (Bool-cases (env.accepts db)) [
  | inl good ↦ rw good refl
  | inr bad ↦ absurd (let e' = rw bad at e in cc)
]
