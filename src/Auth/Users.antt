-- ===== src/Auth/Users.antt =====
-- app/domain/user.py and app/infrastructure/repositories/user_repository.py.
use ch_tech_landing_page_bac.Base.{Bool, Option, some, ◌==◌}
use ch_tech_landing_page_bac.Base.Keys.{update_where}
use ch_tech_landing_page_bac.Errors
use ch_tech_landing_page_bac.Errors.{Result, ok, no_result_found, optional}
use ch_tech_landing_page_bac.Text.{Str}
use ch_tech_landing_page_bac.Domain.Enums.{UserRole, user_role}
use ch_tech_landing_page_bac.Domain.Time.{Time}
use ch_tech_landing_page_bac.Domain.ValueObjects.{Email, make_email}
use ch_tech_landing_page_bac.Models.{Uuid, UserModel}
use ch_tech_landing_page_bac.App.{App, ◌>>=◌, lift, get_db, or_raise, now, commit}
use ch_tech_landing_page_bac.App.Outside.{Env}

pub record User : Type 0 where
  pub id : Uuid
  pub name : Str
  pub email : Email
  pub password_hash : Str
  pub role : UserRole
  pub is_active : Bool
  pub last_login : Option Time
  pub created_at : Time
  pub updated_at : Time

abbrev pub user_id_is : Uuid → UserModel → Bool
user_id_is k m = m.id == k

module _ (env : Env) where
  -- `_to_entity`
  unfoldable pub to_entity : UserModel → Result User
  to_entity model = Errors.◌>>=◌ (make_email env.unicode model.email) λ email.
      Errors.◌>>=◌ (user_role model.role) λ role. ok (record {
        id = model.id;
        name = model.name;
        email = email;
        password_hash = model.password_hash;
        role = role;
        is_active = model.is_active;
        last_login = model.last_login;
        created_at = model.created_at;
        updated_at = model.updated_at;
      })

  -- `get_by_id`
  unfoldable pub get_by_id : Uuid → App (Option User)
  unfolding to_entity
  get_by_id k = do
    db ← get_db
    found ← lift (env.select_one (user_id_is k) db.users)
    lift (optional (to_entity) found)

  abbrev pub email_is : Str → UserModel → Bool
  email_is email m = env.same_text m.email email

  -- `get_by_email`
  unfoldable pub get_by_email : Str → App (Option User)
  unfolding to_entity
  get_by_email email = do
    db ← get_db
    found ← lift (env.select_one (email_is email) db.users)
    lift (optional (to_entity) found)

  -- `record_login`; `updated_at` has `onupdate=utcnow`.
  unfoldable pub record_login : Uuid → Time → App (Unit {0})
  record_login k at = do
    db ← get_db
    found ← lift (env.select_one (user_id_is k) db.users)
    model ← or_raise found no_result_found
    stamp ← now env
    commit env (record db {
      users =
          update_where (user_id_is model.id)
            (λ m. record m { last_login = some at; updated_at = stamp }) db.users;
    })
