-- ===== src/Content/Partners.antt =====
-- Partners: app/infrastructure/repositories/partner_repository.py and
-- app/application/use_cases/partners.py.
use ch_tech_landing_page_bac.Base.{Bool, true, false, Option, none, some, List, ◌∷◌, ◌==◌}
use ch_tech_landing_page_bac.Base.Keys.{update_where, delete_where}
use ch_tech_landing_page_bac.Errors
use ch_tech_landing_page_bac.Errors.{
  Result, ok, err, optional, traverse, resource_not_found, conflict,
}
use ch_tech_landing_page_bac.Text.{Str}
use ch_tech_landing_page_bac.Domain.Entities.{Partner}
use ch_tech_landing_page_bac.Domain.ValueObjects.{make_url, make_image}
use ch_tech_landing_page_bac.Models.{Uuid, PartnerModel}
use ch_tech_landing_page_bac.App.{
  App, ◌>>=◌, ◌>>◌, pure, lift, get_db, or_raise, now, uuid4, commit,
}
use ch_tech_landing_page_bac.App.Outside.{Env}
use ch_tech_landing_page_bac.App.Rows.{if_text, updated_time, unless_raise}

pub record PartnerInput : Type 0 where
  pub name : Str
  pub logo : Option Str
  pub partnership_type : Option Str
  pub website_url : Option Str

abbrev pub partner_id_is : Uuid → PartnerModel → Bool
partner_id_is k m = m.id == k

-- The assignments of `update`.
abbrev pub assigned : PartnerInput → PartnerModel → PartnerModel
assigned input model = record model {
  name = input.name;
  logo = input.logo;
  partnership_type = input.partnership_type;
  website_url = input.website_url;
}

module _ (env : Env) where
  -- `_to_entity`
  unfoldable pub to_partner_entity : PartnerModel → Result Partner
  to_partner_entity model = Errors.◌>>=◌ (if_text (make_image env.unicode) model.logo) λ logo.
      Errors.◌>>=◌ (if_text (make_url env.unicode) model.website_url) λ website_url. ok (record {
        id = model.id;
        name = model.name;
        logo = logo;
        partnership_type = model.partnership_type;
        website_url = website_url;
        created_at = model.created_at;
        updated_at = model.updated_at;
      })

  -- `list`
  unfoldable pub list_partners : App (List Partner)
  unfolding to_partner_entity
  list_partners = do
    db ← get_db
    lift (
        traverse to_partner_entity (env.page (λ a b. env.text_le a.name b.name) 0 none db.partners))

  -- `get_by_id`
  unfoldable pub find_partner : Uuid → App (Option Partner)
  unfolding to_partner_entity
  find_partner k = do
    db ← get_db
    found ← lift (env.select_one (partner_id_is k) db.partners)
    lift (optional to_partner_entity found)

  -- `create`
  unfoldable pub insert_partner : PartnerInput → App Partner
  unfolding to_partner_entity
  insert_partner input = do
    k ← uuid4 env
    created ← now env
    updated ← now env
    db ← get_db
    let model : PartnerModel = record {
      id = k;
      name = input.name;
      logo = input.logo;
      partnership_type = input.partnership_type;
      website_url = input.website_url;
      created_at = created;
      updated_at = updated;
    }
    let after = record db { partners = model ∷ db.partners }
    commit env after
    lift (to_partner_entity model)

  unfoldable pub change_partner : Option PartnerModel → PartnerInput → App (Option Partner)
  unfolding to_partner_entity
  change_partner none input = pure none
  change_partner (some model) input = do
    stamp ← updated_time env model (assigned input model) model.updated_at
    db ← get_db
    let changed : PartnerModel = record (assigned input model) { updated_at = stamp }
    let after = record db {
      partners = update_where (partner_id_is model.id) (λ _. changed) db.partners;
    }
    commit env after
    lift (optional to_partner_entity (some changed))

  -- `update`
  unfoldable pub save_partner : Uuid → PartnerInput → App (Option Partner)
  unfolding change_partner
  save_partner k input = do
    db ← get_db
    found ← lift (env.select_one (partner_id_is k) db.partners)
    change_partner found input

  unfoldable pub drop_partner : Option PartnerModel → App Bool
  drop_partner none = pure false
  drop_partner (some model) = do
    db ← get_db
    let after = record db { partners = delete_where (partner_id_is model.id) db.partners }
    commit env after
    pure true

  -- `delete`
  unfoldable pub remove_partner : Uuid → App Bool
  unfolding drop_partner
  remove_partner k = do
    db ← get_db
    found ← lift (env.select_one (partner_id_is k) db.partners)
    drop_partner found

  -- `ListPartners.execute`
  unfoldable pub all_partners : App (List Partner)
  all_partners = list_partners

  -- `CreatePartner.execute`
  unfoldable pub create_partner : PartnerInput → App Partner
  create_partner input = insert_partner input

  -- `UpdatePartner.execute`
  unfoldable pub update_partner : Uuid → PartnerInput → App Partner
  update_partner k input = do
    found ← save_partner k input
    or_raise found (resource_not_found "Partner not found")

  -- `DeletePartner.execute`
  unfoldable pub delete_partner : Uuid → App (Unit {0})
  delete_partner k = do
    deleted ← remove_partner k
    unless_raise deleted (resource_not_found "Partner not found")
