-- ===== src/Content/Projects/Privacy.antt =====
-- What the public page of a project shows.
use ch_tech_landing_page_bac.Base.{
  Bool, true, false, ◌||◌, not, Option, none, some, ◌≡◌, refl, ap, find, find-holds, Bool-cases,
  inl, inr, arith,
}
use ch_tech_landing_page_bac.Text.Laws.{str_eq→eq}
use ch_tech_landing_page_bac.Errors.{
  bind_ok, resource_not_found, Result, ok, err, traverse, optional,
}
use ch_tech_landing_page_bac.Text.{Str, text, str_eq}
use ch_tech_landing_page_bac.Domain.Enums.{Visibility, public, visibility, project_status}
use ch_tech_landing_page_bac.Domain.Entities.{Project}
use ch_tech_landing_page_bac.Domain.ValueObjects.{make_slug, make_url, make_image}
use ch_tech_landing_page_bac.Content.Technologies.{to_technology_entity, load_technologies}
use ch_tech_landing_page_bac.Models.{ProjectModel, Db}
use ch_tech_landing_page_bac.Models.Constraints.{IsConsistent}
use ch_tech_landing_page_bac.App.{World, run_app, next, or_raise}
use ch_tech_landing_page_bac.App.Outside.{Env, SqlLaws}
use ch_tech_landing_page_bac.App.Rows.{select_text, if_text, found_row}
use ch_tech_landing_page_bac.Content.Projects.{
  ProjectWithTechnologies, is_public, slug_is, to_row, to_project_entity, find_by_slug,
  get_project_by_slug,
}

-- A visibility that reads as text `s` is public if the collation takes `s` for PUBLIC.
visibility-public :
    (same : Str → Str → Bool) (s : Str) (v : Visibility)
    → same (text "PRIVATE") (text "PUBLIC") ≡ false
    → same s (text "PUBLIC") ≡ true
    → visibility s ≡ ok v
    → v ≡ public
unfolding visibility
visibility-public same s v differ seen e = elim (Bool-cases (str_eq s (text "PUBLIC"))) [
  | inl y ↦ (let e' = rw y at e in cc)
  | inr n ↦ elim (Bool-cases (str_eq s (text "PRIVATE"))) [
    | inl y ↦ absurd (let bad = rw (str_eq→eq s (text "PRIVATE") y) at seen in cc)
    | inr n' ↦ absurd (let e' = rw (n, n') at e in cc)
  ]
]

abbrev seen_of : Result Project → Visibility
seen_of (ok p) = p.visibility
seen_of (err e) = public

abbrev project_of : Project → Result ProjectWithTechnologies → Project
project_of p (ok row) = row.project
project_of p (err e) = p

module _ (env : Env) where
  -- A row that the condition selects reads back as a public project.
  pub to_row-visibility :
      (db : Db) (m : ProjectModel) (row : ProjectWithTechnologies)
      → env.same_text (text "PRIVATE") (text "PUBLIC") ≡ false
      → is_public env m ≡ true
      → to_row env db m ≡ ok row
      → row.project.visibility ≡ public
  unfolding to_row to_project_entity
  to_row-visibility db m row differ seen e =
      let (p, read, rest) = bind_ok (to_project_entity env m) _ row e in
      let (ts, loaded, last) =
        bind_ok
          (traverse (to_technology_entity env)
            (load_technologies env db.project_technologies m.id db))
          _ row rest in
      let (slug, e1, r1) = bind_ok (make_slug m.slug) _ p read in
      let (repo, e2, r2) = bind_ok (if_text (make_url env.unicode) m.repository_url) _ p r1 in
      let (demo, e3, r3) = bind_ok (if_text (make_url env.unicode) m.live_demo_url) _ p r2 in
      let (cover, e4, r4) = bind_ok (if_text (make_image env.unicode) m.cover_image) _ p r3 in
      let (status, e5, r5) = bind_ok (project_status m.status) _ p r4 in
      let (v, e6, r6) = bind_ok (visibility m.visibility) _ p r5 in
      let v_public : v ≡ public = visibility-public env.same_text m.visibility v differ seen e6 in
      let same : v ≡ p.visibility = ap (λ r. seen_of r) r6 in
      let same_row : p ≡ row.project = ap (λ r. project_of p r) last in
      rw (← same_row, ← same) v_public

  module _ (laws : SqlLaws env) where
    -- The public page of a slug shows no private project: what it returns is public. The database is
    -- consistent, and the collation tells PRIVATE from PUBLIC.
    pub get_project_by_slug-public :
        (slug : Str) (w : World) (row : ProjectWithTechnologies)
        → IsConsistent env.same_text env.lower_text w.db
        → env.same_text (text "PRIVATE") (text "PUBLIC") ≡ false
        → (get_project_by_slug env slug true w).0 ≡ ok row
        → row.project.visibility ≡ public
    unfolding get_project_by_slug find_by_slug run_app
    get_project_by_slug-public slug w row c differ e =
        shown (find (slug_is env slug true) w.db.projects) refl (
          rw
            (select_text env laws (λ (m : ProjectModel). m.slug) slug
              (λ m. not true || is_public env m) w.db.projects c.project_slugs)
            at e)
      where
        shown :
            (o : Option ProjectModel)
            → find (slug_is env slug true) w.db.projects ≡ o
            → (next
                (optional (to_row env w.db) o, w)
                (λ found. or_raise found (resource_not_found "Project not found"))).0
              ≡ ok row
            → row.project.visibility ≡ public
        shown none f h = absurd (cc)
        shown (some m) f h =
            let good : slug_is env slug true m ≡ true =
              find-holds (slug_is env slug true) w.db.projects m f in
            to_row-visibility w.db m row differ (ground arith)
              (rw (found_row (to_row env w.db m) (resource_not_found "Project not found") w) at h)
