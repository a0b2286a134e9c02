-- ===== src/Content/Testimonials.antt =====
-- Testimonials: app/infrastructure/repositories/testimonial_repository.py and
-- app/application/use_cases/testimonials.py. No `IntegrityError` is caught here.
pub mod References
use ch_tech_landing_page_bac.Base.{
  Bool, true, false, Option, none, some, List, ◌∷◌, ◌==◌, map, is_none,
}
use ch_tech_landing_page_bac.Base.Int.{ℤ}
use ch_tech_landing_page_bac.Base.Keys.{update_where, delete_where}
use ch_tech_landing_page_bac.Errors.{resource_not_found}
use ch_tech_landing_page_bac.Text.{Str}
use ch_tech_landing_page_bac.Domain.Entities.{Testimonial}
use ch_tech_landing_page_bac.Models.{Uuid, TestimonialModel}
use ch_tech_landing_page_bac.App.{
  App, ◌>>=◌, ◌>>◌, pure, lift, get_db, or_raise, raise_if, now, uuid4, commit,
}
use ch_tech_landing_page_bac.App.Outside.{Env}
use ch_tech_landing_page_bac.App.Rows.{updated_time, unless_raise}
use ch_tech_landing_page_bac.Base.{leb}
use ch_tech_landing_page_bac.Content.Clients.{find_client}
use ch_tech_landing_page_bac.Content.Projects.{find_by_id}

pub record TestimonialInput : Type 0 where
  pub author_name : Str
  pub author_role : Option Str
  pub client_id : Option Uuid
  pub project_id : Option Uuid
  pub content : Str
  pub rating : Option ℤ
  pub featured : Bool

abbrev pub testimonial_id_is : Uuid → TestimonialModel → Bool
testimonial_id_is k m = m.id == k

-- The assignments of `update`.
abbrev pub assigned : TestimonialInput → TestimonialModel → TestimonialModel
assigned input model = record model {
  author_name = input.author_name;
  author_role = input.author_role;
  client_id = input.client_id;
  project_id = input.project_id;
  content = input.content;
  rating = input.rating;
  featured = input.featured;
}

module _ (env : Env) where
  -- `_to_entity`
  unfoldable pub to_testimonial_entity : TestimonialModel → Testimonial
  to_testimonial_entity model = record {
    id = model.id;
    author_name = model.author_name;
    author_role = model.author_role;
    client_id = model.client_id;
    project_id = model.project_id;
    content = model.content;
    rating = model.rating;
    featured = model.featured;
    created_at = model.created_at;
    updated_at = model.updated_at;
  }

  -- `list`
  unfoldable pub list_testimonials : App (List Testimonial)
  unfolding to_testimonial_entity
  list_testimonials = do
    db ← get_db
    pure (
        map to_testimonial_entity
          (env.page (λ a b. leb a.created_at b.created_at) 0 none db.testimonials))

  -- `create`
  unfoldable pub insert_testimonial : TestimonialInput → App Testimonial
  unfolding to_testimonial_entity
  insert_testimonial input = do
    k ← uuid4 env
    created ← now env
    updated ← now env
    db ← get_db
    let model : TestimonialModel = record {
      id = k;
      author_name = input.author_name;
      author_role = input.author_role;
      client_id = input.client_id;
      project_id = input.project_id;
      content = input.content;
      rating = input.rating;
      featured = input.featured;
      created_at = created;
      updated_at = updated;
    }
    let after = record db { testimonials = model ∷ db.testimonials }
    commit env after
    pure (to_testimonial_entity model)

  unfoldable pub change_testimonial :
      Option TestimonialModel → TestimonialInput → App (Option Testimonial)
  unfolding to_testimonial_entity
  change_testimonial none input = pure none
  change_testimonial (some model) input = do
    stamp ← updated_time env model (assigned input model) model.updated_at
    db ← get_db
    let changed : TestimonialModel = record (assigned input model) { updated_at = stamp }
    let after = record db {
      testimonials = update_where (testimonial_id_is model.id) (λ _. changed) db.testimonials;
    }
    commit env after
    pure (some (to_testimonial_entity changed))

  -- `update`
  unfoldable pub save_testimonial : Uuid → TestimonialInput → App (Option Testimonial)
  unfolding change_testimonial
  save_testimonial k input = do
    db ← get_db
    found ← lift (env.select_one (testimonial_id_is k) db.testimonials)
    change_testimonial found input

  unfoldable pub drop_testimonial : Option TestimonialModel → App Bool
  drop_testimonial none = pure false
  drop_testimonial (some model) = do
    db ← get_db
    let after = record db {
      testimonials = delete_where (testimonial_id_is model.id) db.testimonials;
    }
    commit env after
    pure true

  -- `delete`
  unfoldable pub remove_testimonial : Uuid → App Bool
  unfolding drop_testimonial
  remove_testimonial k = do
    db ← get_db
    found ← lift (env.select_one (testimonial_id_is k) db.testimonials)
    drop_testimonial found

  -- The `client_id` half of `_validate_references`: a client that is named exists.
  unfoldable pub check_client : Option Uuid → App (Unit {0})
  check_client none = pure tt
  check_client (some k) = do
    found ← find_client env k
    raise_if (is_none found) (resource_not_found "Client not found")

  -- The `project_id` half.
  unfoldable pub check_project : Option Uuid → App (Unit {0})
  check_project none = pure tt
  check_project (some k) = do
    found ← find_by_id env k
    raise_if (is_none found) (resource_not_found "Project not found")

  -- `_validate_references`
  unfoldable pub validate_references : TestimonialInput → App (Unit {0})
  unfolding check_client check_project
  validate_references input = do check_client input.client_id; check_project input.project_id

  -- `ListTestimonials.execute`
  unfoldable pub all_testimonials : App (List Testimonial)
  all_testimonials = list_testimonials

  -- `CreateTestimonial.execute`
  unfoldable pub create_testimonial : TestimonialInput → App Testimonial
  create_testimonial input = do validate_references input; insert_testimonial input

  -- `UpdateTestimonial.execute`
  unfoldable pub update_testimonial : Uuid → TestimonialInput → App Testimonial
  update_testimonial k input = do
    validate_references input
    found ← save_testimonial k input
    or_raise found (resource_not_found "Testimonial not found")

  -- `DeleteTestimonial.execute`
  unfoldable pub delete_testimonial : Uuid → App (Unit {0})
  delete_testimonial k = do
    deleted ← remove_testimonial k
    unless_raise deleted (resource_not_found "Testimonial not found")
