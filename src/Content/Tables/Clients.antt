-- ===== src/Content/Tables/Clients.antt =====
-- What the calls of Content.Clients do to the tables.
use ch_tech_landing_page_bac.Base.{true, Option, none, some, ◌≡◌}
use ch_tech_landing_page_bac.Models.{Uuid, ClientModel, Db}
use ch_tech_landing_page_bac.App.Outside.{Env}
use ch_tech_landing_page_bac.App.Tables.{Keeps, reads_rules, writes_rules}
use ch_tech_landing_page_bac.Content.Clients.{
  ClientInput, all_clients, change_client, create_client, delete_client, drop_client, find_client,
  insert_client, list_clients, remove_client, save_client, update_client,
}

module _ {P : Db → Type 0} (env : Env) where
  pub find_client-Keeps : (a : Uuid) → Keeps P (find_client env a)
  unfolding find_client
  find_client-Keeps a = search reads_rules depth 40 fits 6000

  pub all_clients-Keeps : Keeps P (all_clients env)
  unfolding all_clients list_clients
  all_clients-Keeps = search reads_rules depth 40 fits 6000

  module _ (sound : (db : Db) → env.accepts db ≡ true → P db) where
    pub change_client-Keeps :
        (a : Option ClientModel) (b : ClientInput) → Keeps P (change_client env a b)
    unfolding change_client
    change_client-Keeps none b = search writes_rules depth 40 fits 6000
    change_client-Keeps (some a) b = search writes_rules depth 40 fits 6000

    pub drop_client-Keeps : (a : Option ClientModel) → Keeps P (drop_client env a)
    unfolding drop_client
    drop_client-Keeps none = search writes_rules depth 40 fits 6000
    drop_client-Keeps (some a) = search writes_rules depth 40 fits 6000

    pub create_client-Keeps : (a : ClientInput) → Keeps P (create_client env a)
    unfolding create_client insert_client
    create_client-Keeps a = search writes_rules depth 40 fits 6000

    pub update_client-Keeps : (a : Uuid) (b : ClientInput) → Keeps P (update_client env a b)
    unfolding update_client save_client
    update_client-Keeps a b = search (writes_rules, change_client-Keeps) depth 40 fits 6000

    pub delete_client-Keeps : (a : Uuid) → Keeps P (delete_client env a)
    unfolding delete_client remove_client
    delete_client-Keeps a = search (writes_rules, drop_client-Keeps) depth 40 fits 6000

pub ruleset clients_rules = (
  find_client-Keeps, change_client-Keeps, drop_client-Keeps, all_clients-Keeps, create_client-Keeps,
  update_client-Keeps, delete_client-Keeps,
)
