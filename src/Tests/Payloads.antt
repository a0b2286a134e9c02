-- ===== src/Tests/Payloads.antt =====
-- Payloads in the environment in memory.
use ch_tech_landing_page_bac.Base.{true, none, some, [], ◌≡◌, refl}
use ch_tech_landing_page_bac.Errors.{ok}
use ch_tech_landing_page_bac.Text.{text, strip}
use ch_tech_landing_page_bac.Domain.ValueObjects.{make_slug, make_markdown}
use ch_tech_landing_page_bac.Api.Articles as Articles
use ch_tech_landing_page_bac.Api.Articles.{ArticleWrite}
use ch_tech_landing_page_bac.Api.Http.{is_ok}
use ch_tech_landing_page_bac.Api.Payloads.{
  same_fields, valid-to_article_entity, valid-to_project_entity,
}
use ch_tech_landing_page_bac.Api.Projects as Projects
use ch_tech_landing_page_bac.Api.Projects.{ProjectWrite}
use ch_tech_landing_page_bac.Content.Articles as Stored
use ch_tech_landing_page_bac.Content.Projects as Rows
use ch_tech_landing_page_bac.Tests.Memory.{memory}
use ch_tech_landing_page_bac.Tests.Articles.{draft}
use ch_tech_landing_page_bac.Tests.Api.{payload}
use ch_tech_landing_page_bac.Tests.Catalogue.{site}

abbrev essay : ArticleWrite
essay = record {
  slug = text "An essay";
  title = text "An essay";
  summary = none;
  content = text "Text";
  cover_image = none;
  reading_time = none;
  published = true;
  published_at = some 10;
  technology_ids = [];
}

-- The schema takes a text that is no slug.
valid-to_article_entity_example :
    is_ok (Stored.to_article_entity memory (Stored.assigned (Articles.to_input essay) draft))
    ≡ is_ok (make_slug essay.slug)
unfolding Articles.valid make_markdown strip
valid-to_article_entity_example = valid-to_article_entity memory essay draft refl

valid-to_project_entity_example :
    (Projects.to_project_input payload ≡ ok (same_fields payload))
    × (is_ok (Rows.to_project_entity memory (Rows.assigned (same_fields payload) site))
        ≡ is_ok (make_slug payload.slug))
unfolding Projects.valid
valid-to_project_entity_example = valid-to_project_entity memory payload site refl
