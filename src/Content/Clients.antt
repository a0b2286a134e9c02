-- ===== src/Content/Clients.antt =====
-- Clients: app/infrastructure/repositories/client_repository.py and
-- app/application/use_cases/clients.py.
pub mod Store
pub mod Writes
pub mod Refinement
use ch_tech_landing_page_bac.Base.{Bool, true, false, Option, none, some, List, ◌∷◌, ◌==◌}
use ch_tech_landing_page_bac.Base.Keys.{update_where, delete_where}
use ch_tech_landing_page_bac.Errors
use ch_tech_landing_page_bac.Errors.{
  Result, ok, err, optional, traverse, resource_not_found, conflict,
}
use ch_tech_landing_page_bac.Text.{Str}
use ch_tech_landing_page_bac.Domain.Entities.{Client}
use ch_tech_landing_page_bac.Domain.ValueObjects.{make_url, make_image}
use ch_tech_landing_page_bac.Models.{Uuid, ClientModel}
use ch_tech_landing_page_bac.App.{
  App, ◌>>=◌, ◌>>◌, pure, lift, get_db, or_raise, now, uuid4, commit, integrity_as,
}
use ch_tech_landing_page_bac.App.Outside.{Env}
use ch_tech_landing_page_bac.App.Rows.{if_text, updated_time, unless_raise}

pub record ClientInput : Type 0 where
  pub name : Str
  pub logo : Option Str
  pub industry : Option Str
  pub website_url : Option Str

abbrev pub client_id_is : Uuid → ClientModel → Bool
client_id_is k m = m.id == k

-- The assignments of `update`.
abbrev pub assigned : ClientInput → ClientModel → ClientModel
assigned input model = record model {
  name = input.name;
  logo = input.logo;
  industry = input.industry;
  website_url = input.website_url;
}

module _ (env : Env) where
  -- `_to_entity`
  unfoldable pub to_client_entity : ClientModel → Result Client
  to_client_entity model = Errors.◌>>=◌ (if_text (make_image env.unicode) model.logo) λ logo.
      Errors.◌>>=◌ (if_text (make_url env.unicode) model.website_url) λ website_url. ok (record {
        id = model.id;
        name = model.name;
        logo = logo;
        industry = model.industry;
        website_url = website_url;
        created_at = model.created_at;
        updated_at = model.updated_at;
      })

  -- `list`
  unfoldable pub list_clients : App (List Client)
  unfolding to_client_entity
  list_clients = do
    db ← get_db
    lift (traverse to_client_entity (env.page (λ a b. env.text_le a.name b.name) 0 none db.clients))

  -- `get_by_id`
  unfoldable pub find_client : Uuid → App (Option Client)
  unfolding to_client_entity
  find_client k = do
    db ← get_db
    found ← lift (env.select_one (client_id_is k) db.clients)
    lift (optional to_client_entity found)

  -- `create`
  unfoldable pub insert_client : ClientInput → App Client
  unfolding to_client_entity
  insert_client input = do
    k ← uuid4 env
    created ← now env
    updated ← now env
    db ← get_db
    let model : ClientModel = record {
      id = k;
      name = input.name;
      logo = input.logo;
      industry = input.industry;
      website_url = input.website_url;
      created_at = created;
      updated_at = updated;
    }
    let after = record db { clients = model ∷ db.clients }
    commit env after
    lift (to_client_entity model)

  unfoldable pub change_client : Option ClientModel → ClientInput → App (Option Client)
  unfolding to_client_entity
  change_client none input = pure none
  change_client (some model) input = do
    stamp ← updated_time env model (assigned input model) model.updated_at
    db ← get_db
    let changed : ClientModel = record (assigned input model) { updated_at = stamp }
    let after = record db {
      clients = update_where (client_id_is model.id) (λ _. changed) db.clients;
    }
    commit env after
    lift (optional to_client_entity (some changed))

  -- `update`
  unfoldable pub save_client : Uuid → ClientInput → App (Option Client)
  unfolding change_client
  save_client k input = do
    db ← get_db
    found ← lift (env.select_one (client_id_is k) db.clients)
    change_client found input

  unfoldable pub drop_client : Option ClientModel → App Bool
  drop_client none = pure false
  drop_client (some model) = do
    db ← get_db
    let after = record db { clients = delete_where (client_id_is model.id) db.clients }
    integrity_as (commit env after)
        (conflict "Client is referenced by an existing project or testimonial")
    pure true

  -- `delete`
  unfoldable pub remove_client : Uuid → App Bool
  unfolding drop_client
  remove_client k = do
    db ← get_db
    found ← lift (env.select_one (client_id_is k) db.clients)
    drop_client found

  -- `ListClients.execute`
  unfoldable pub all_clients : App (List Client)
  all_clients = list_clients

  -- `CreateClient.execute`
  unfoldable pub create_client : ClientInput → App Client
  create_client input = insert_client input

  -- `UpdateClient.execute`
  unfoldable pub update_client : Uuid → ClientInput → App Client
  update_client k input = do
    found ← save_client k input
    or_raise found (resource_not_found "Client not found")

  -- `DeleteClient.execute`
  unfoldable pub delete_client : Uuid → App (Unit {0})
  delete_client k = do
    deleted ← remove_client k
    unless_raise deleted (resource_not_found "Client not found")
