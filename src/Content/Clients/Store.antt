-- ===== src/Content/Clients/Store.antt =====
-- The table of the clients as a map from identifiers to entities: what a repository promises.
use ch_tech_landing_page_bac.Base.{
  suc, Bool, Option, none, some, List, [], ◌∷◌, ◌≡◌, ◌∙◌, refl, sym, ap, ◌==◌, find, if◌then◌else◌,
  Bool-cases, inl, inr,
}
use ch_tech_landing_page_bac.Base.Keys.{update_where}
use ch_tech_landing_page_bac.Errors.{Result, ok, err, optional, bind_ok}
use ch_tech_landing_page_bac.Domain.Entities.{Client}
use ch_tech_landing_page_bac.Domain.ValueObjects.{make_image, make_url}
use ch_tech_landing_page_bac.Models.{Uuid, ClientModel, Db}
use ch_tech_landing_page_bac.App.{
  App, World, ◌>>=◌, ◌>>◌, pure, lift, uuid4, now, get_db, commit, run_app,
}
use ch_tech_landing_page_bac.App.Outside.{Env}
use ch_tech_landing_page_bac.App.Rows.{if_text, updated_time}
use ch_tech_landing_page_bac.App.Returns.{committed}
use ch_tech_landing_page_bac.Content.Clients.{
  ClientInput, assigned, client_id_is, to_client_entity, insert_client, change_client,
  create_client, update_client, delete_client,
}

-- A write to the table, and what it reports.
pub data Write : Type 0 where
  create : ClientInput → Write
  update : Uuid → ClientInput → Write
  delete : Uuid → Write

pub data Event : Type 0 where
  stored : Client → Event
  removed : Uuid → Event

-- What a `get_by_id` answers for each identifier.
abbrev pub Store : Type 0
Store = Uuid → Result (Option Client)

-- The specification: an entity is put under its identifier, or an identifier goes.
abbrev pub apply : Event → Store → Store
apply (stored c) s k = if c.id == k then ok (some c) else s k
apply (removed j) s k = if j == k then ok none else s k

abbrev pub replay : List Event → Store → Store
replay [] s = s
replay (e ∷ events) s = replay events (apply e s)

abbrev id_of : Uuid → Result Client → Uuid
id_of k (ok c) = c.id
id_of k (err e) = k

module _ (env : Env) where
  -- A write by its use case.
  unfoldable pub exec : Write → App Event
  exec (create input) = create_client env input >>= λ c. pure (stored c)
  exec (update k input) = update_client env k input >>= λ c. pure (stored c)
  exec (delete k) = delete_client env k >>= λ _. pure (removed k)

  unfoldable pub run : List Write → App (List Event)
  unfolding exec
  run [] = pure []
  run (c ∷ writes) = exec c >>= λ e. (run writes >>= λ events. pure (e ∷ events))

  -- The map that the tables hold.
  abbrev pub view : Db → Store
  view db k = optional (to_client_entity env) (find (client_id_is k) db.clients)

  to_client_entity-id : (m : ClientModel) (c : Client) → to_client_entity env m ≡ ok c → m.id ≡ c.id
  unfolding to_client_entity
  to_client_entity-id m c e =
      let (logo, e1, r1) = bind_ok (if_text (make_image env.unicode) m.logo) _ c e in
      let (site, e2, r2) = bind_ok (if_text (make_url env.unicode) m.website_url) _ c r1 in
      ap (λ r. id_of m.id r) r2

  -- Tables that differ by one row hold maps that differ by its entity.
  pub view-stored :
      (m : ClientModel) (c : Client) (db db' : Db) (k : Uuid)
      → to_client_entity env m ≡ ok c
      → find (client_id_is k) db'.clients
        ≡ (if m.id == k then some m else find (client_id_is k) db.clients)
      → view db' k ≡ apply (stored c) (view db) k
  view-stored m c db db' k made found =
      let same = to_client_entity-id m c made in
      elim (Bool-cases (c.id == k)) [
        | inl y ↦ rw (found, ap (λ i. i == k) same ∙ y, made, y) refl
        | inr n ↦ rw (found, ap (λ i. i == k) same ∙ n, n) refl
      ]

  module _ (input : ClientInput) (w : World) where
    abbrev created_row : ClientModel
    created_row = record {
      id = env.uuid_at w.uuids;
      name = input.name;
      logo = input.logo;
      industry = input.industry;
      website_url = input.website_url;
      created_at = env.clock_at w.clock;
      updated_at = env.clock_at (suc w.clock);
    }

    abbrev created_db : Db
    created_db = record w.db { clients = created_row ∷ w.db.clients }

    abbrev drawn : World
    drawn = record w { uuids = suc w.uuids; clock = suc (suc w.clock) }

    create_client_lem :
        create_client env input w
        ≡ (commit env created_db >> lift (to_client_entity env created_row)) drawn
    unfolding create_client insert_client ◌>>=◌ uuid4 now get_db
    create_client_lem = refl

  pub create_client-view :
      (input : ClientInput) (w : World) (c : Client) (k : Uuid)
      → (create_client env input w).0 ≡ ok c
      → view (create_client env input w).1.db k ≡ apply (stored c) (view w.db) k
  create_client-view input w c k e =
      let run = create_client_lem input w in
      let done =
        committed env (created_db input w) (to_client_entity env (created_row input w)) c
          (drawn input w) (ap (λ r. r.0) (sym run) ∙ e) in
      ap (λ r. view r.1.db k) (run ∙ done)
      ∙ view-stored (created_row input w) c w.db (created_db input w) k
          (ap (λ r. r.0) (sym (run ∙ done)) ∙ e) refl

  module _ (input : ClientInput) (w : World) (m : ClientModel) where
    abbrev touched : Bool
    touched = env.is_modified m (assigned input m)

    abbrev pub changed_row : ClientModel
    changed_row = record (assigned input m) {
      updated_at = if touched then env.clock_at w.clock else m.updated_at;
    }

    abbrev pub changed_db : Db
    changed_db = record w.db {
      clients = update_where (client_id_is m.id) (λ _. changed_row) w.db.clients;
    }

    abbrev pub ticked : World
    ticked = record w { clock = if touched then suc w.clock else w.clock }

    updated_time_lem :
        updated_time env m (assigned input m) m.updated_at w ≡ (ok changed_row.updated_at, ticked)
    unfolding updated_time run_app
    updated_time_lem = elim (Bool-cases touched) [ inl e ↦ rw e | inr e ↦ rw e ]

    pub change_client_lem :
        change_client env (some m) input w
        ≡ (commit env changed_db >> lift (optional (to_client_entity env) (some changed_row)))
            ticked
    unfolding change_client ◌>>=◌ get_db
    change_client_lem = rw updated_time_lem refl
