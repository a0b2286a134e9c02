-- ===== src/Api/Http.antt =====
-- What the routers of app/api/v1 share: the caller of a request, the guards that the decorators
-- declare, in the order in which FastAPI runs them, the tests of the schemas, and the texts of
-- value objects.
use ch_tech_landing_page_bac.Base.{
  ℕ, Bool, true, false, ◌&&◌, not, Option, none, some, List, leb, length,
}
use ch_tech_landing_page_bac.Base.Int.{ℤ, pos, leb_ℤ}
use ch_tech_landing_page_bac.Errors.{Result, ok, err, request_validation_error}
use ch_tech_landing_page_bac.Text.{Str, text}
use ch_tech_landing_page_bac.Domain.ValueObjects.{Image, Url, Email}
use ch_tech_landing_page_bac.App.{App, ◌>>=◌, ◌>>◌, raise_if}
use ch_tech_landing_page_bac.App.Outside.{Env}
use ch_tech_landing_page_bac.Auth.Security.{get_current_user_id}
use ch_tech_landing_page_bac.RateLimit.{limit_ip}
use mathlib.Core.Option as Option

-- What a handler reads of the request: the client's address, the bearer token, the user agent.
pub record Caller : Type 0 where
  pub host : Option Str
  pub bearer : Option Str
  pub user_agent : Option Str

-- The bodies of a router's responses: a list in the short or the full form, one item, nothing.
pub data Body (A B : Type 0) : Type 0 where
  items : List A → Body A B
  details : List B → Body A B
  item : B → Body A B
  no_content : Body A B

-- Whether a constructor took the value.
abbrev pub is_ok : {A : Type 0} → Result A → Bool
is_ok (ok a) = true
is_ok (err e) = false

-- A test of a field that may be `None`, which passes.
abbrev pub every : {A : Type 0} → (A → Bool) → Option A → Bool
every p none = true
every p (some a) = p a

-- `Field(max_length=n)`
abbrev pub at_most : ℕ → Str → Bool
at_most n s = leb (length s) n

-- `Field(min_length=m, max_length=n)`
abbrev pub in_length : ℕ → ℕ → Str → Bool
in_length m n s = leb m (length s) && leb (length s) n

-- `Field(ge=m, le=n)`
abbrev pub within_ℤ : ℕ → ℕ → ℤ → Bool
within_ℤ m n a = leb_ℤ (pos m) a && leb_ℤ a (pos n)

-- `str(x) if x else None`
abbrev pub image_text : Option Image → Option Str
image_text x = Option.map (λ (i : Image). i.value) x

abbrev pub url_text : Option Url → Option Str
url_text x = Option.map (λ (u : Url). u.value) x

abbrev pub email_text : Option Email → Option Str
email_text x = Option.map (λ (e : Email). e.value) x

module _ (env : Env) where
  -- `_public_api_limit`
  unfoldable pub public_api_limit : Caller → App (Unit {0})
  public_api_limit caller = limit_ip env 100 60 (text "public-api") caller.host

  -- `_admin_write_limit`
  unfoldable pub admin_write_limit : Caller → App (Unit {0})
  admin_write_limit caller = limit_ip env 60 60 (text "admin-write") caller.host

  -- A route with `dependencies=[_public_api_limit]`.
  unfoldable pub public_endpoint : {A : Type 0} → Caller → App A → App A
  unfolding public_api_limit
  public_endpoint caller m = do public_api_limit caller; m

  -- A route that depends on `get_current_user_id` alone.
  unfoldable pub admin_read : {A : Type 0} → Caller → (Str → App A) → App A
  admin_read caller m = do user ← get_current_user_id env caller.bearer; m user

  -- A route with `dependencies=[_admin_write_limit]`, which depends on `get_current_user_id` and
  -- takes a payload that is valid or not.
  unfoldable pub admin_write : {A : Type 0} → Caller → Bool → (Str → App A) → App A
  unfolding admin_write_limit
  admin_write caller valid m = do
    admin_write_limit caller
    user ← get_current_user_id env caller.bearer
    raise_if (not valid) request_validation_error
    m user
