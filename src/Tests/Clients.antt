-- ===== src/Tests/Clients.antt =====
-- Clients in the environment in memory.
use ch_tech_landing_page_bac.Base.{none, [], ◌∷◌, List, ◌≡◌, refl}
use ch_tech_landing_page_bac.Text.{text}
use ch_tech_landing_page_bac.Domain.Entities.{Client}
use ch_tech_landing_page_bac.Models.{Db, ClientModel}
use ch_tech_landing_page_bac.Models.Constraints.{IsConsistent}
use ch_tech_landing_page_bac.App.{World, run_app}
use ch_tech_landing_page_bac.App.Rows.{updated_time}
use ch_tech_landing_page_bac.Content.Clients.{
  ClientInput, to_client_entity, find_client, insert_client, change_client, save_client,
  drop_client, remove_client, create_client, update_client, delete_client,
}
use ch_tech_landing_page_bac.Content.Clients.Store.{
  Write, create, update, delete, Event, stored, removed, replay, exec, run,
}
use ch_tech_landing_page_bac.Content.Clients.Refinement.{run-replay}
use ch_tech_landing_page_bac.Tests.Memory.{memory, memory_laws, checks_sound}
use ch_tech_landing_page_bac.Tests.Sessions.{empty_db}

abbrev acme : ClientModel
acme = record {
  id = 1;
  name = text "Acme";
  logo = none;
  industry = none;
  website_url = none;
  created_at = 0;
  updated_at = 0;
}

abbrev db : Db
db = record empty_db { clients = acme ∷ [] }

abbrev world : World
world = record { db = db; redis = λ _. none; clock = 0; uuids = 0; secrets = 0 }

db-IsConsistent : IsConsistent memory.same_text memory.lower_text db
db-IsConsistent = checks_sound db refl

abbrev bolt : ClientInput
bolt = record { name = text "Bolt"; logo = none; industry = none; website_url = none }

-- A client comes, gets a new name, and the first one goes.
abbrev writes : List Write
writes = create bolt ∷ update 1000 (record bolt { name = text "Bolts" }) ∷ delete 1 ∷ []

abbrev client : Client
client = record {
  id = 1000;
  name = text "Bolt";
  logo = none;
  industry = none;
  website_url = none;
  created_at = memory.clock_at 0;
  updated_at = memory.clock_at 1;
}

abbrev events : List Event
events =
    stored client
    ∷ stored (record client { name = text "Bolts"; updated_at = memory.clock_at 2 })
    ∷ removed 1
    ∷ []

-- To run the use cases.
program : Unit {0}
unfolding run_app run exec updated_time to_client_entity insert_client change_client save_client
    drop_client remove_client create_client update_client delete_client
program = tt

run-replay_example :
    (find_client memory 1000 (run memory writes world).1).0
    ≡ replay events (λ j. (find_client memory j world).0) 1000
unfolding program
run-replay_example = run-replay memory memory_laws writes world events 1000 db-IsConsistent refl
