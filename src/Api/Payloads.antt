-- ===== src/Api/Payloads.antt =====
-- What the validators of the schemas leave to the checks of the value objects and the entities.
use ch_tech_landing_page_bac.Base.{
  true, false, ◌&&◌, Option, none, some, [], ◌∷◌, ◌≡◌, refl, ap, arith, is_none,
}
use ch_tech_landing_page_bac.Errors
use ch_tech_landing_page_bac.Errors.{Result, ok, err}
use ch_tech_landing_page_bac.Text.{Str}
use ch_tech_landing_page_bac.Domain.Entities.{make_article}
use ch_tech_landing_page_bac.Domain.Enums.{
  project_status, visibility, project_status_value, visibility_value,
}
use ch_tech_landing_page_bac.Domain.ValueObjects.{make_slug, make_markdown, make_image, make_url}
use ch_tech_landing_page_bac.Models.{ArticleModel, ProjectModel}
use ch_tech_landing_page_bac.App.Outside.{Env}
use ch_tech_landing_page_bac.App.Rows.{if_text}
use ch_tech_landing_page_bac.Api.Http.{is_ok, every}
use ch_tech_landing_page_bac.Api.Articles as Articles
use ch_tech_landing_page_bac.Api.Articles.{ArticleWrite}
use ch_tech_landing_page_bac.Api.Projects as Projects
use ch_tech_landing_page_bac.Api.Projects.{ProjectWrite, to_project_input}
use ch_tech_landing_page_bac.Content.Articles as Stored
use ch_tech_landing_page_bac.Content.Projects as Rows
use ch_tech_landing_page_bac.Content.Projects.{ProjectInput}
use ch_tech_landing_page_bac.Content.Projects.Reading.{project_status-value, visibility-value}

passes :
    {A B : Type 0} (r : Result A) (f : A → Result B)
    → is_ok r ≡ true
    → ((a : A) → is_ok (f a) ≡ true)
    → is_ok (Errors.◌>>=◌ r f) ≡ true
passes (ok a) f h k = k a
passes (err e) f h k = absurd (cc)

-- A text that the validator took, or none, or the empty text, reads back.
if_text-every :
    {A : Type 0} (f : Str → Result A) (o : Option Str)
    → every (λ s. is_ok (f s)) o ≡ true
    → is_ok (if_text f o) ≡ true
if_text-every f none h = refl
if_text-every f (some []) h = refl
if_text-every f (some (c ∷ s)) h = passes (f (c ∷ s)) _ h (λ a. refl)

bind-is_ok :
    {A B : Type 0} (r : Result A) (f : A → Result B)
    → ((a : A) → is_ok (f a) ≡ true)
    → is_ok (Errors.◌>>=◌ r f) ≡ is_ok r
bind-is_ok (ok a) f h = h a
bind-is_ok (err e) f h = refl

abbrev pub same_fields : ProjectWrite → ProjectInput
same_fields payload = record {
  slug = payload.slug;
  title = payload.title;
  short_description = payload.short_description;
  full_description = payload.full_description;
  status = payload.status;
  visibility = payload.visibility;
  featured = payload.featured;
  started_at = payload.started_at;
  finished_at = payload.finished_at;
  technology_ids = payload.technology_ids;
  repository_url = payload.repository_url;
  live_demo_url = payload.live_demo_url;
  cover_image = payload.cover_image;
}

pub to_project_input_lem :
    (payload : ProjectWrite) → to_project_input payload ≡ ok (same_fields payload)
unfolding to_project_input
to_project_input_lem payload =
    rw (project_status-value payload.status, visibility-value payload.visibility) refl

module _ (env : Env) where
  -- A payload that the schema of an article takes makes a row that reads back if its slug is a slug,
  -- and raises if not, whichever row is created or replaced: of the checks of the value objects and
  -- of the entity, the one on the slug alone is left to fail after the commit.
  pub valid-to_article_entity :
      (payload : ArticleWrite) (model : ArticleModel)
      → Articles.valid env payload ≡ true
      → is_ok (Stored.to_article_entity env (Stored.assigned (Articles.to_input payload) model))
        ≡ is_ok (make_slug payload.slug)
  unfolding Articles.valid Articles.to_input Stored.to_article_entity make_article
  valid-to_article_entity payload model h =
      let dated : (payload.published && is_none payload.published_at) ≡ false = ground arith in
      bind-is_ok (make_slug payload.slug) _ λ slug.
        (passes (make_markdown payload.content) _ (ground arith) λ content.
          (passes (if_text (make_image env.unicode) payload.cover_image) _
            (if_text-every (make_image env.unicode) payload.cover_image (ground arith))
            λ cover_image. (rw dated refl)))

  -- A payload that the schema of a project takes goes over to the input with the same
  -- fields, and makes a row that reads
  -- back if and only if its slug is a slug, whichever row is created or replaced.
  pub valid-to_project_entity :
      (payload : ProjectWrite) (model : ProjectModel)
      → Projects.valid env payload ≡ true
      → (to_project_input payload ≡ ok (same_fields payload))
        × (is_ok (Rows.to_project_entity env (Rows.assigned (same_fields payload) model))
            ≡ is_ok (make_slug payload.slug))
  unfolding Projects.valid Rows.to_project_entity
  valid-to_project_entity payload model h = (
    to_project_input_lem payload,
    bind-is_ok (make_slug payload.slug) _ λ slug.
        (passes (if_text (make_url env.unicode) payload.repository_url) _
          (if_text-every (make_url env.unicode) payload.repository_url (ground arith))
          λ site.
            (passes (if_text (make_url env.unicode) payload.live_demo_url) _
              (if_text-every (make_url env.unicode) payload.live_demo_url (ground arith))
              λ demo.
                (passes (if_text (make_image env.unicode) payload.cover_image) _
                  (if_text-every (make_image env.unicode) payload.cover_image (ground arith))
                  λ image.
                    (passes (project_status (project_status_value payload.status)) _
                      (ap is_ok (project_status-value payload.status))
                      λ status.
                        (passes (visibility (visibility_value payload.visibility)) _
                          (ap is_ok (visibility-value payload.visibility)) λ seen_by. refl))))),
  )
