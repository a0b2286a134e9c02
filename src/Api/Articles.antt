-- ===== src/Api/Articles.antt =====
-- app/api/v1/articles.py and app/schemas/article.py: the payloads, the responses and the handlers.
use ch_tech_landing_page_bac.Base.{ℕ, Bool, true, false, ◌&&◌, not, Option, List, map, is_none}
use ch_tech_landing_page_bac.Base.Int.{ℤ}
use ch_tech_landing_page_bac.Errors.{request_validation_error}
use ch_tech_landing_page_bac.Text.{Str}
use ch_tech_landing_page_bac.Domain.Time.{Time}
use ch_tech_landing_page_bac.Domain.ValueObjects.{make_image, make_markdown}
use ch_tech_landing_page_bac.Models.{Uuid}
use ch_tech_landing_page_bac.App.{App, ◌>>=◌, ◌>>◌, pure, lift, raise_if}
use ch_tech_landing_page_bac.App.Outside.{Env}
use ch_tech_landing_page_bac.Api.Http.{
  Caller, Body, items, details, item, no_content, public_endpoint, admin_read, admin_write, at_most,
  every, is_ok, image_text,
}
use ch_tech_landing_page_bac.Api.Projects.{TechnologySummary, to_technology_summary, valid_page}
use ch_tech_landing_page_bac.Content.Articles
use ch_tech_landing_page_bac.Content.Articles.{ArticleInput, ArticleWithTechnologies}

pub record ArticleListItem : Type 0 where
  pub id : Uuid
  pub slug : Str
  pub title : Str
  pub summary : Option Str
  pub cover_image : Option Str
  pub reading_time : Option ℤ
  pub published_at : Option Time

pub record ArticleDetail : Type 0 where
  pub id : Uuid
  pub slug : Str
  pub title : Str
  pub summary : Option Str
  pub content : Str
  pub cover_image : Option Str
  pub reading_time : Option ℤ
  pub published : Bool
  pub published_at : Option Time
  pub author_id : Uuid
  pub technologies : List TechnologySummary
  pub created_at : Time
  pub updated_at : Time

-- A payload whose fields have their types, which Pydantic checks before it runs the rest.
pub record ArticleWrite : Type 0 where
  pub slug : Str
  pub title : Str
  pub summary : Option Str
  pub content : Str
  pub cover_image : Option Str
  pub reading_time : Option ℤ
  pub published : Bool
  pub published_at : Option Time
  pub technology_ids : List Uuid

-- `_to_list_item`
unfoldable pub to_list_item : ArticleWithTechnologies → ArticleListItem
to_list_item row =
    let article = row.article in
    record {
      id = article.id;
      slug = article.slug.value;
      title = article.title;
      summary = article.summary;
      cover_image = image_text article.cover_image;
      reading_time = article.reading_time;
      published_at = article.published_at;
    }

-- `_to_detail`
unfoldable pub to_detail : ArticleWithTechnologies → ArticleDetail
to_detail row =
    let article = row.article in
    record {
      id = article.id;
      slug = article.slug.value;
      title = article.title;
      summary = article.summary;
      content = article.content.value;
      cover_image = image_text article.cover_image;
      reading_time = article.reading_time;
      published = article.published;
      published_at = article.published_at;
      author_id = article.author_id;
      technologies = map to_technology_summary row.technologies;
      created_at = article.created_at;
      updated_at = article.updated_at;
    }

-- `_to_input`
unfoldable pub to_input : ArticleWrite → ArticleInput
to_input payload = record {
  slug = payload.slug;
  title = payload.title;
  summary = payload.summary;
  content = payload.content;
  cover_image = payload.cover_image;
  reading_time = payload.reading_time;
  published = payload.published;
  published_at = payload.published_at;
  technology_ids = payload.technology_ids;
}

pub data Public : Type 0 where
  call_list_articles : ℕ → ℕ → Public
  call_get_article : Str → Public

pub data Admin : Type 0 where
  call_list_admin_articles : ℕ → ℕ → Admin
  call_get_admin_article : Uuid → Admin
  call_create_article : ArticleWrite → Admin
  call_update_article : Uuid → ArticleWrite → Admin
  call_delete_article : Uuid → Admin

module _ (env : Env) where
  -- The bounds and validators of `ArticleWrite`, `_published_requires_published_at` the last.
  unfoldable pub valid : ArticleWrite → Bool
  valid payload =
      at_most 150 payload.slug
      && (at_most 255 payload.title
          && (every (at_most 500) payload.summary
              && (at_most 50_000 payload.content
                  && (is_ok (make_markdown payload.content)
                      && (every (λ s. is_ok (make_image env.unicode s)) payload.cover_image
                          && not (payload.published && is_none payload.published_at))))))

  -- `GET /` of the public router.
  unfoldable pub list_articles : Caller → ℕ → ℕ → App (List ArticleListItem)
  list_articles caller page limit = public_endpoint env caller (do
    raise_if (not (valid_page page limit)) request_validation_error
    rows ← Articles.all_articles env true page limit
    pure (map to_list_item rows))

  -- `GET /{slug}` of the public router.
  unfoldable pub get_article : Caller → Str → App ArticleDetail
  get_article caller slug =
      public_endpoint env caller
        (do row ← Articles.get_article_by_slug env slug true; pure (to_detail row))

  -- `GET /` of the admin router.
  unfoldable pub list_admin_articles : Caller → ℕ → ℕ → App (List ArticleDetail)
  list_admin_articles caller page limit = admin_read env caller λ user. (do
    raise_if (not (valid_page page limit)) request_validation_error
    rows ← Articles.all_articles env false page limit
    pure (map to_detail rows))

  -- `GET /{article_id}` of the admin router.
  unfoldable pub get_admin_article : Caller → Uuid → App ArticleDetail
  get_admin_article caller article_id =
      admin_read env caller
        λ user. (do row ← Articles.get_article_by_id env article_id; pure (to_detail row))

  -- `POST /` of the admin router: the author is the caller.
  unfoldable pub create_article : Caller → ArticleWrite → App ArticleDetail
  create_article caller payload = admin_write env caller (valid payload) λ user. (do
    author_id ← lift (env.uuid_parse user)
    row ← Articles.create_article env (to_input payload) author_id
    pure (to_detail row))

  -- `PUT /{article_id}` of the admin router.
  unfoldable pub update_article : Caller → Uuid → ArticleWrite → App ArticleDetail
  update_article caller article_id payload = admin_write env caller (valid payload) λ user. (do
    row ← Articles.update_article env article_id (to_input payload)
    pure (to_detail row))

  -- `DELETE /{article_id}` of the admin router.
  unfoldable pub delete_article : Caller → Uuid → App (Unit {0})
  delete_article caller article_id =
      admin_write env caller true λ user. (Articles.delete_article env article_id)

  unfoldable pub serve_public : Caller → Public → App (Body ArticleListItem ArticleDetail)
  serve_public caller (call_list_articles page limit) =
      list_articles caller page limit >>= λ r. pure (items r)
  serve_public caller (call_get_article slug) = get_article caller slug >>= λ r. pure (item r)

  unfoldable pub serve_admin : Caller → Admin → App (Body ArticleListItem ArticleDetail)
  serve_admin caller (call_list_admin_articles page limit) =
      list_admin_articles caller page limit >>= λ r. pure (details r)
  serve_admin caller (call_get_admin_article k) = get_admin_article caller k >>= λ r. pure (item r)
  serve_admin caller (call_create_article payload) =
      create_article caller payload >>= λ r. pure (item r)
  serve_admin caller (call_update_article k payload) =
      update_article caller k payload >>= λ r. pure (item r)
  serve_admin caller (call_delete_article k) = delete_article caller k >>= λ r. pure no_content
