-- ===== src/Content/Articles/Publication.antt =====
-- What the public pages show of the articles.
use ch_tech_landing_page_bac.Base.{
  ℕ, ◌≤◌, ◌-◌, ◌*◌, Bool, true, false, ◌&&◌, not, Option, none, some, List, ◌≡◌, ◌⊎◌, inl, inr,
  refl, ap, find, find-holds, filter, All, Bool-cases, is_none, length, arith, ◌==◌,
}
use ch_tech_landing_page_bac.Errors.{
  Result, ok, err, optional, traverse, bind_ok, resource_not_found,
}
use ch_tech_landing_page_bac.Text.{Str}
use ch_tech_landing_page_bac.Domain.Entities.{Article, make_article}
use ch_tech_landing_page_bac.Domain.ValueObjects.{make_slug, make_markdown, make_image}
use ch_tech_landing_page_bac.Models.{ArticleModel, Db}
use ch_tech_landing_page_bac.Models.Constraints.{IsConsistent}
use ch_tech_landing_page_bac.App.{World, run_app, next, or_raise}
use ch_tech_landing_page_bac.App.Outside.{Env, SqlLaws}
use ch_tech_landing_page_bac.App.Rows.{found_row, select_by_text, if_text}
use ch_tech_landing_page_bac.App.Pages.{page-All, page-length, traverse-All}
use ch_tech_landing_page_bac.Content.Technologies.{to_technology_entity, load_technologies}
use ch_tech_landing_page_bac.Content.Articles.{
  ArticleWithTechnologies, to_row, to_article_entity, shown, later_first, list_articles,
  find_article_by_slug, get_article_by_slug,
}

-- Published, with the date of publication.
abbrev pub IsDated : Article → Type 0
IsDated a = (a.published ≡ true) × (is_none a.published_at ≡ false)

-- The constructor of the entity lets no published article through without a date.
make_article-IsDated : (a b : Article) → a.published ≡ true → make_article a ≡ ok b → IsDated b
unfolding make_article
make_article-IsDated a b out e = elim (Bool-cases (is_none a.published_at)) [
  | inl undated ↦ absurd (let e' = rw (out, undated) at e in cc)
  | inr dated ↦ (let e' = rw (out, dated) at e in let same : a ≡ b = cc in rw (← same) (out, dated))
]

later_first-total : (a b : Option ℕ) → (later_first a b ≡ true) ⊎ (later_first b a ≡ true)
later_first-total none none = inl (ground arith)
later_first-total none (some b) = inr (ground arith)
later_first-total (some a) none = inl (ground arith)
later_first-total (some a) (some b) = ground arith

abbrev article_of : Article → Result ArticleWithTechnologies → Article
article_of a (ok row) = row.article
article_of a (err e) = a

module _ (env : Env) where
  pub to_row-IsDated :
      (db : Db) (m : ArticleModel) (row : ArticleWithTechnologies)
      → m.published ≡ true
      → to_row env db m ≡ ok row
      → IsDated row.article
  unfolding to_row to_article_entity
  to_row-IsDated db m row out e =
      let (a, read, rest) = bind_ok (to_article_entity env m) _ row e in
      let (ts, loaded, last) =
        bind_ok
          (traverse (to_technology_entity env)
            (load_technologies env db.article_technologies m.id db))
          _ row rest in
      let (slug, e1, r1) = bind_ok (make_slug m.slug) _ a read in
      let (content, e2, r2) = bind_ok (make_markdown m.content) _ a r1 in
      let (cover, e3, r3) = bind_ok (if_text (make_image env.unicode) m.cover_image) _ a r2 in
      let same : a ≡ row.article = ap (λ r. article_of a r) last in
      rw (← same) (make_article-IsDated _ a out r3)

  module _ (laws : SqlLaws env) where
    -- The public page of a slug shows no draft: the article that it returns is published and has
    -- its date of publication. The database is consistent.
    pub get_article_by_slug-IsDated :
        (slug : Str) (w : World) (row : ArticleWithTechnologies)
        → IsConsistent env.same_text env.lower_text w.db
        → (get_article_by_slug env slug true w).0 ≡ ok row
        → IsDated row.article
    unfolding get_article_by_slug find_article_by_slug run_app
    get_article_by_slug-IsDated slug w row c e = dated (find here w.db.articles) refl (
        rw
          (select_by_text env laws (λ (m : ArticleModel). m.slug) slug here w.db.articles
            (λ m h. ground arith) c.article_slugs)
          at e)
      where
        here : ArticleModel → Bool
        here m = env.same_text m.slug slug && shown true m

        dated :
            (o : Option ArticleModel)
            → find here w.db.articles ≡ o
            → (next
                (optional (to_row env w.db) o, w)
                (λ found. or_raise found (resource_not_found "Article not found"))).0
              ≡ ok row
            → IsDated row.article
        dated none f h = absurd (cc)
        dated (some m) f h =
            let good : here m ≡ true = find-holds here w.db.articles m f in
            to_row-IsDated w.db m row (ground arith)
              (rw (found_row (to_row env w.db m) (resource_not_found "Article not found") w) at h)

    -- A page of the public list holds no draft: each article is published and has its date, and
    -- there are at most as many as the limit.
    pub list_articles-page :
        (page limit : ℕ) (w : World) (rows : List ArticleWithTechnologies)
        → (list_articles env true page limit w).0 ≡ ok rows
        → All (λ row. IsDated row.article) rows × (length rows ≤ limit)
    unfolding list_articles run_app
    list_articles-page page limit w rows e = elim (Bool-cases (page == 0 && not (limit == 0))) [
      | inl bad ↦ absurd (let e' = rw bad at e in cc)
      | inr good ↦
          (let e' = rw good at e in
            let n : ℕ = (page - 1) * limit in
            let le : ArticleModel → ArticleModel → Bool =
              λ a b. later_first a.published_at b.published_at in
            let total : (a b : ArticleModel) → (le a b ≡ true) ⊎ (le b a ≡ true) =
              λ a b. later_first-total a.published_at b.published_at in
            let found : List ArticleModel = filter (shown true) w.db.articles in
            let (dated, same) =
              traverse-All (to_row env w.db) (λ m. shown true m ≡ true) (λ row. IsDated row.article)
                (env.page le n (some limit) found) rows
                (λ m row h read. to_row-IsDated w.db m row h read)
                (page-All env laws le total (shown true) n (some limit) w.db.articles) e' in
            (dated, omega (arith, same, page-length env laws le total n limit found)))
    ]
