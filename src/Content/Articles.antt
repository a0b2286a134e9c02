-- ===== src/Content/Articles.antt =====
-- Articles: app/infrastructure/repositories/article_repository.py and
-- app/application/use_cases/articles.py. The table refuses a published article without a date.
pub mod Publication
use ch_tech_landing_page_bac.Base.{
  ℕ, ◌-◌, ◌*◌, Bool, true, false, ◌&&◌, ◌||◌, not, Option, none, some, List, ◌∷◌, ◌==◌, filter, leb,
}
use ch_tech_landing_page_bac.Base.Int.{ℤ}
use ch_tech_landing_page_bac.Base.Keys.{update_where, delete_where}
use ch_tech_landing_page_bac.Errors
use ch_tech_landing_page_bac.Errors.{
  Result, ok, optional, traverse, resource_not_found, conflict, database_error,
}
use ch_tech_landing_page_bac.Text.{Str}
use ch_tech_landing_page_bac.Domain.Time.{Time}
use ch_tech_landing_page_bac.Domain.Entities.{Article, Technology, make_article}
use ch_tech_landing_page_bac.Domain.ValueObjects.{make_slug, make_image, make_markdown}
use ch_tech_landing_page_bac.Models.{Uuid, ArticleModel, Db}
use ch_tech_landing_page_bac.App.{
  App, ◌>>=◌, ◌>>◌, pure, lift, get_db, or_raise, raise_if, now, uuid4, commit, integrity_as,
}
use ch_tech_landing_page_bac.App.Outside.{Env}
use ch_tech_landing_page_bac.App.Rows.{if_text, updated_time, unless_raise, autoflush}
use ch_tech_landing_page_bac.Content.Technologies.{
  to_technology_entity, get_technologies, load_technologies, relink, owner_is,
}

-- `ArticleInput` and `ArticleWithTechnologies` (app/application/ports/article_repository.py).
pub record ArticleInput : Type 0 where
  pub slug : Str
  pub title : Str
  pub summary : Option Str
  pub content : Str
  pub reading_time : Option ℤ
  pub published : Bool
  pub published_at : Option Time
  pub technology_ids : List Uuid
  pub cover_image : Option Str

pub record ArticleWithTechnologies : Type 0 where
  pub article : Article
  pub technologies : List Technology

abbrev pub article_id_is : Uuid → ArticleModel → Bool
article_id_is k m = m.id == k

-- The assignments of `update`.
abbrev pub assigned : ArticleInput → ArticleModel → ArticleModel
assigned input model = record model {
  slug = input.slug;
  title = input.title;
  summary = input.summary;
  content = input.content;
  cover_image = input.cover_image;
  reading_time = input.reading_time;
  published = input.published;
  published_at = input.published_at;
}

-- `published_at DESC`, NULL last.
abbrev later_first : Option Time → Option Time → Bool
later_first none none = true
later_first none (some b) = false
later_first (some a) none = true
later_first (some a) (some b) = leb b a

-- `published.is_(True)`, if only published articles are asked for.
abbrev pub shown : Bool → ArticleModel → Bool
shown published_only m = not published_only || m.published

module _ (env : Env) where
  -- The entity of a row, whose constructor checks the publication date.
  unfoldable pub to_article_entity : ArticleModel → Result Article
  unfolding make_article
  to_article_entity model = Errors.◌>>=◌ (make_slug model.slug) λ slug.
      Errors.◌>>=◌ (make_markdown model.content) λ content.
        Errors.◌>>=◌ (if_text (make_image env.unicode) model.cover_image) λ cover_image.
          make_article (record {
            id = model.id;
            author_id = model.author_id;
            slug = slug;
            title = model.title;
            summary = model.summary;
            content = content;
            cover_image = cover_image;
            reading_time = model.reading_time;
            published = model.published;
            published_at = model.published_at;
            created_at = model.created_at;
            updated_at = model.updated_at;
          })

  -- `_to_row`
  unfoldable pub to_row : Db → ArticleModel → Result ArticleWithTechnologies
  to_row db model = Errors.◌>>=◌ (to_article_entity model) λ article.
      Errors.◌>>=◌
        (traverse (to_technology_entity env)
          (load_technologies env db.article_technologies model.id db))
        λ technologies. ok (record { article = article; technologies = technologies })

  -- `list`; the rows have distinct keys, so `unique()` keeps them all.
  unfoldable pub list_articles : Bool → ℕ → ℕ → App (List ArticleWithTechnologies)
  list_articles published_only page limit = do
    db ← get_db
    raise_if (page == 0 && not (limit == 0)) database_error
    lift (
        traverse (to_row db) (
          env.page (λ a b. later_first a.published_at b.published_at) ((page - 1) * limit)
            (some limit) (filter (shown published_only) db.articles)))

  -- `get_by_slug`
  unfoldable pub find_article_by_slug : Str → Bool → App (Option ArticleWithTechnologies)
  find_article_by_slug slug published_only = do
    db ← get_db
    found ←
        lift (env.select_one (λ m. env.same_text m.slug slug && shown published_only m) db.articles)
    lift (optional (to_row db) found)

  -- `get_by_id`
  unfoldable pub find_article : Uuid → App (Option ArticleWithTechnologies)
  find_article k = do
    db ← get_db
    found ← lift (env.select_one (article_id_is k) db.articles)
    lift (optional (to_row db) found)

  -- `create`
  unfoldable pub insert_article : ArticleInput → Uuid → App ArticleWithTechnologies
  insert_article input author_id = do
    before ← get_db
    let technologies = get_technologies env input.technology_ids before
    k ← uuid4 env
    created ← now env
    updated ← now env
    let model : ArticleModel = record {
      id = k;
      author_id = author_id;
      slug = input.slug;
      title = input.title;
      summary = input.summary;
      content = input.content;
      cover_image = input.cover_image;
      reading_time = input.reading_time;
      published = input.published;
      published_at = input.published_at;
      created_at = created;
      updated_at = updated;
    }
    let after = record before {
      articles = model ∷ before.articles;
      article_technologies = relink k technologies before.article_technologies;
    }
    integrity_as (commit env after) (conflict "An article with this slug already exists")
    lift (to_row after model)

  unfoldable pub change_article :
      Option ArticleModel → ArticleInput → App (Option ArticleWithTechnologies)
  change_article none input = pure none
  change_article (some model) input = do
    before ← get_db
    stamp ← updated_time env model (assigned input model) model.updated_at
    let changed : ArticleModel = record (assigned input model) { updated_at = stamp }
    let articles = update_where (article_id_is model.id) (λ _. changed) before.articles
    autoflush env input.technology_ids (record before { articles = articles })
    let technologies = get_technologies env input.technology_ids before
    let after = record before {
      articles = articles;
      article_technologies = relink model.id technologies before.article_technologies;
    }
    integrity_as (commit env after) (conflict "An article with this slug already exists")
    lift (optional (to_row after) (some changed))

  -- `update`
  unfoldable pub save_article : Uuid → ArticleInput → App (Option ArticleWithTechnologies)
  unfolding change_article
  save_article k input = do
    db ← get_db
    found ← lift (env.select_one (article_id_is k) db.articles)
    change_article found input

  unfoldable pub drop_article : Option ArticleModel → App Bool
  drop_article none = pure false
  drop_article (some model) = do
    before ← get_db
    commit env (record before {
      articles = delete_where (article_id_is model.id) before.articles;
      article_technologies = delete_where (owner_is model.id) before.article_technologies;
    })
    pure true

  -- `delete`
  unfoldable pub remove_article : Uuid → App Bool
  unfolding drop_article
  remove_article k = do
    db ← get_db
    found ← lift (env.select_one (article_id_is k) db.articles)
    drop_article found

  -- `ListArticles.execute`
  unfoldable pub all_articles : Bool → ℕ → ℕ → App (List ArticleWithTechnologies)
  all_articles published_only page limit = list_articles published_only page limit

  -- `GetArticleBySlug.execute`
  unfoldable pub get_article_by_slug : Str → Bool → App ArticleWithTechnologies
  get_article_by_slug slug published_only = do
    found ← find_article_by_slug slug published_only
    or_raise found (resource_not_found "Article not found")

  -- `GetArticleById.execute`
  unfoldable pub get_article_by_id : Uuid → App ArticleWithTechnologies
  get_article_by_id k = do
    found ← find_article k
    or_raise found (resource_not_found "Article not found")

  -- `CreateArticle.execute`
  unfoldable pub create_article : ArticleInput → Uuid → App ArticleWithTechnologies
  create_article input author_id = insert_article input author_id

  -- `UpdateArticle.execute`
  unfoldable pub update_article : Uuid → ArticleInput → App ArticleWithTechnologies
  update_article k input = do
    found ← save_article k input
    or_raise found (resource_not_found "Article not found")

  -- `DeleteArticle.execute`
  unfoldable pub delete_article : Uuid → App (Unit {0})
  delete_article k = do
    deleted ← remove_article k
    unless_raise deleted (resource_not_found "Article not found")
