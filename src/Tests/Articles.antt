-- ===== src/Tests/Articles.antt =====
-- Articles in the environment in memory.
use ch_tech_landing_page_bac.Base.{◌≤◌, true, false, none, some, [], ◌∷◌, refl, All, length}
use ch_tech_landing_page_bac.Text.{text, strip}
use ch_tech_landing_page_bac.Domain.ValueObjects.{make_slug, make_markdown}
use ch_tech_landing_page_bac.Domain.Entities.{make_article}
use ch_tech_landing_page_bac.Models.{Db, ArticleModel}
use ch_tech_landing_page_bac.Models.Constraints.{IsConsistent}
use ch_tech_landing_page_bac.App.{World, run_app}
use ch_tech_landing_page_bac.Content.Technologies
use ch_tech_landing_page_bac.Content.Articles
use ch_tech_landing_page_bac.Content.Articles.{
  ArticleWithTechnologies, get_article_by_slug, list_articles,
}
use ch_tech_landing_page_bac.Content.Articles.Publication.{
  IsDated, get_article_by_slug-IsDated, list_articles-page,
}
use ch_tech_landing_page_bac.Tests.Memory.{memory, memory_laws, checks_sound}
use ch_tech_landing_page_bac.Tests.Sessions.{empty_db, admin}

abbrev news : ArticleModel
news = record {
  id = 1;
  author_id = 1;
  slug = text "news";
  title = text "News";
  summary = none;
  content = text "Text";
  cover_image = none;
  reading_time = none;
  published = true;
  published_at = some 10;
  created_at = 0;
  updated_at = 0;
}

abbrev pub draft : ArticleModel
draft = record news { id = 2; slug = text "draft"; published = false; published_at = none }

abbrev db : Db
db = record empty_db { users = admin ∷ []; articles = news ∷ draft ∷ [] }

abbrev world : World
world = record { db = db; redis = λ _. none; clock = 0; uuids = 0; secrets = 0 }

db-IsConsistent : IsConsistent memory.same_text memory.lower_text db
db-IsConsistent = checks_sound db refl

abbrev shown : ArticleWithTechnologies
shown = record {
  article = record {
    id = 1;
    author_id = 1;
    slug = record { value = text "news" };
    title = text "News";
    summary = none;
    content = record { value = text "Text" };
    cover_image = none;
    reading_time = none;
    published = true;
    published_at = some 10;
    created_at = 0;
    updated_at = 0;
  };
  technologies = [];
}

-- To run the use cases.
program : Unit {0}
unfolding run_app get_article_by_slug list_articles Articles.find_article_by_slug Articles.to_row
    Articles.to_article_entity Technologies.to_technology_entity Technologies.load_technologies
    make_slug make_markdown make_article strip
program = tt

get_article_by_slug-IsDated_example : IsDated shown.article
unfolding program
get_article_by_slug-IsDated_example =
    get_article_by_slug-IsDated memory memory_laws (text "news") world shown db-IsConsistent refl

list_articles-page_example :
    All (λ row. IsDated row.article) (shown ∷ []) × (length (shown ∷ []) ≤ 20)
unfolding program
list_articles-page_example = list_articles-page memory memory_laws 1 20 world (shown ∷ []) refl
