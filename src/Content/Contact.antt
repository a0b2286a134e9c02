-- ===== src/Content/Contact.antt =====
-- Contact requests: app/infrastructure/repositories/contact_request_repository.py and
-- app/application/use_cases/contact_requests.py.
use ch_tech_landing_page_bac.Base.{Bool, Option, none, ◌∷◌, ◌==◌}
use ch_tech_landing_page_bac.Errors
use ch_tech_landing_page_bac.Errors.{
  Result, ok, err, optional, traverse, resource_not_found, conflict,
}
use ch_tech_landing_page_bac.Text.{Str}
use ch_tech_landing_page_bac.Domain.Entities.{ContactRequest}
use ch_tech_landing_page_bac.Domain.Enums.{contact_status, contact_status_value, new}
use ch_tech_landing_page_bac.Domain.ValueObjects.{make_email}
use ch_tech_landing_page_bac.Models.{Uuid, ContactRequestModel}
use ch_tech_landing_page_bac.App.{App, ◌>>=◌, ◌>>◌, lift, get_db, now, uuid4, commit}
use ch_tech_landing_page_bac.App.Outside.{Env}

pub record ContactRequestInput : Type 0 where
  pub name : Str
  pub email : Str
  pub company : Option Str
  pub subject : Option Str
  pub message : Str

abbrev pub contact_request_id_is : Uuid → ContactRequestModel → Bool
contact_request_id_is k m = m.id == k

module _ (env : Env) where
  -- `_to_entity`
  unfoldable pub to_contact_request_entity : ContactRequestModel → Result ContactRequest
  to_contact_request_entity model = Errors.◌>>=◌ (make_email env.unicode model.email) λ email.
      Errors.◌>>=◌ (contact_status model.status) λ status. ok (record {
        id = model.id;
        name = model.name;
        email = email;
        company = model.company;
        subject = model.subject;
        message = model.message;
        interested_service_line_id = model.interested_service_line_id;
        source = model.source;
        status = status;
        created_at = model.created_at;
      })

  -- `create`
  unfoldable pub insert_contact_request : ContactRequestInput → App ContactRequest
  unfolding to_contact_request_entity
  insert_contact_request input = do
    k ← uuid4 env
    created ← now env
    db ← get_db
    let model : ContactRequestModel = record {
      id = k;
      name = input.name;
      email = input.email;
      company = input.company;
      subject = input.subject;
      message = input.message;
      interested_service_line_id = none;
      source = none;
      status = contact_status_value new;
      created_at = created;
    }
    let after = record db { contact_requests = model ∷ db.contact_requests }
    commit env after
    lift (to_contact_request_entity model)

  -- `SubmitContactRequest.execute`
  unfoldable pub submit_contact_request : ContactRequestInput → App ContactRequest
  submit_contact_request input = insert_contact_request input
