-- ===== src/Api/Testimonials.antt =====
-- app/api/v1/testimonials.py and app/schemas/testimonial.py: the payloads, the responses and the handlers.
use ch_tech_landing_page_bac.Base.{Bool, true, ◌&&◌, Option, List, map}
use ch_tech_landing_page_bac.Base.Int.{ℤ}
use ch_tech_landing_page_bac.Text.{Str}
use ch_tech_landing_page_bac.Domain.Time.{Time}
use ch_tech_landing_page_bac.Models.{Uuid}
use ch_tech_landing_page_bac.App.{App, ◌>>=◌, pure}
use ch_tech_landing_page_bac.App.Outside.{Env}
use ch_tech_landing_page_bac.Api.Http.{
  Caller, Body, items, item, no_content, public_endpoint, admin_write, at_most, every, within_ℤ,
}
use ch_tech_landing_page_bac.Domain.Entities.{Testimonial}
use ch_tech_landing_page_bac.Content.Testimonials
use ch_tech_landing_page_bac.Content.Testimonials.{TestimonialInput}

pub record TestimonialItem : Type 0 where
  pub id : Uuid
  pub author_name : Str
  pub author_role : Option Str
  pub client_id : Option Uuid
  pub project_id : Option Uuid
  pub content : Str
  pub rating : Option ℤ
  pub featured : Bool
  pub created_at : Time
  pub updated_at : Time

-- A payload whose fields have their types, which Pydantic checks before it runs the rest.
pub record TestimonialWrite : Type 0 where
  pub author_name : Str
  pub author_role : Option Str
  pub client_id : Option Uuid
  pub project_id : Option Uuid
  pub content : Str
  pub rating : Option ℤ
  pub featured : Bool

-- `_to_item`
unfoldable pub to_item : Testimonial → TestimonialItem
to_item testimonial = record {
  id = testimonial.id;
  author_name = testimonial.author_name;
  author_role = testimonial.author_role;
  client_id = testimonial.client_id;
  project_id = testimonial.project_id;
  content = testimonial.content;
  rating = testimonial.rating;
  featured = testimonial.featured;
  created_at = testimonial.created_at;
  updated_at = testimonial.updated_at;
}

-- `_to_input`
unfoldable pub to_input : TestimonialWrite → TestimonialInput
to_input payload = record {
  author_name = payload.author_name;
  author_role = payload.author_role;
  client_id = payload.client_id;
  project_id = payload.project_id;
  content = payload.content;
  rating = payload.rating;
  featured = payload.featured;
}

-- The routes of the public router.
pub data Public : Type 0 where
  call_list_testimonials : Public

-- The routes of the admin router.
pub data Admin : Type 0 where
  call_create_testimonial : TestimonialWrite → Admin
  call_update_testimonial : Uuid → TestimonialWrite → Admin
  call_delete_testimonial : Uuid → Admin

module _ (env : Env) where
  -- The bounds and validators of `TestimonialWrite`.
  unfoldable pub valid : TestimonialWrite → Bool
  valid payload =
      at_most 150 payload.author_name
      && (every (at_most 150) payload.author_role
          && (at_most 2000 payload.content && (every (within_ℤ 1 5) payload.rating)))

  -- `GET /` of the public router.
  unfoldable pub list_testimonials : Caller → App (List TestimonialItem)
  list_testimonials caller =
      public_endpoint env caller
        (do found ← Testimonials.all_testimonials env; pure (map to_item found))

  -- `POST /` of the admin router.
  unfoldable pub create_testimonial : Caller → TestimonialWrite → App TestimonialItem
  create_testimonial caller payload = admin_write env caller (valid payload) λ user. (do
    found ← Testimonials.create_testimonial env (to_input payload)
    pure (to_item found))

  -- `PUT /{testimonial_id}` of the admin router.
  unfoldable pub update_testimonial : Caller → Uuid → TestimonialWrite → App TestimonialItem
  update_testimonial caller testimonial_id payload = admin_write env caller (valid payload) λ user.
      (do
        found ← Testimonials.update_testimonial env testimonial_id (to_input payload)
        pure (to_item found))

  -- `DELETE /{testimonial_id}` of the admin router.
  unfoldable pub delete_testimonial : Caller → Uuid → App (Unit {0})
  delete_testimonial caller testimonial_id =
      admin_write env caller true λ user. (Testimonials.delete_testimonial env testimonial_id)

  unfoldable pub serve_public : Caller → Public → App (Body TestimonialItem TestimonialItem)
  serve_public caller call_list_testimonials = list_testimonials caller >>= λ r. pure (items r)

  unfoldable pub serve_admin : Caller → Admin → App (Body TestimonialItem TestimonialItem)
  serve_admin caller (call_create_testimonial payload) =
      create_testimonial caller payload >>= λ r. pure (item r)
  serve_admin caller (call_update_testimonial testimonial_id payload) =
      update_testimonial caller testimonial_id payload >>= λ r. pure (item r)
  serve_admin caller (call_delete_testimonial testimonial_id) =
      delete_testimonial caller testimonial_id >>= λ r. pure no_content
