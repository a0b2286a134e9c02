-- ===== src/Content/CaseStudies/Privacy.antt =====
-- What the public pages show of the case studies.
use ch_tech_landing_page_bac.Base.{
  Bool, true, ◌&&◌, Option, none, some, List, ◌≡◌, refl, find, find-holds, any, arith, ◌==◌, leb,
  map, [], ◌∷◌, All, filter,
}
use ch_tech_landing_page_bac.Errors.{ok, resource_not_found}
use ch_tech_landing_page_bac.Domain.Entities.{CaseStudy}
use ch_tech_landing_page_bac.Models.{Uuid, CaseStudyModel, ProjectModel, Db}
use ch_tech_landing_page_bac.Models.Constraints.{IsConsistent}
use ch_tech_landing_page_bac.App.{World, run_app, next, or_raise}
use ch_tech_landing_page_bac.App.Outside.{Env, SqlLaws}
use ch_tech_landing_page_bac.App.Rows.{select_by_id}
use ch_tech_landing_page_bac.App.Pages.{page-All}
use ch_tech_landing_page_bac.Content.Projects.{is_public}
use ch_tech_landing_page_bac.Content.CaseStudies.{
  case_study_id_is, to_case_study_entity, seen, find_case_study, get_case_study_by_id,
  list_case_studies, all_case_studies,
}
use mathlib.Core.Option as Option

map-All :
    {A B : Type 0} (f : A → B) (P : A → Type 0) (Q : B → Type 0) (xs : List A)
    → ((a : A) → P a → Q (f a))
    → All P xs
    → All Q (map f xs)
map-All f P Q [] g h = tt
map-All f P Q (x ∷ xs) g (p, h) = (g x p, map-All f P Q xs g h)

module _ (env : Env) where
  -- The project of the case study is in the tables and public.
  abbrev pub IsOfPublicProject : Db → CaseStudy → Type 0
  IsOfPublicProject db study =
      any (λ (p : ProjectModel). p.id == study.project_id && is_public env p) db.projects ≡ true

  entity-IsOfPublicProject :
      (db : Db) (m : CaseStudyModel)
      → seen env db true m ≡ true
      → IsOfPublicProject db (to_case_study_entity env m)
  unfolding to_case_study_entity
  entity-IsOfPublicProject db m h = ground arith

  module _ (laws : SqlLaws env) where
    -- The public page of an identifier shows no case study of a private project: the project of the
    -- one that it returns is public. The database is consistent.
    pub get_case_study_by_id-IsOfPublicProject :
        (k : Uuid) (w : World) (study : CaseStudy)
        → IsConsistent env.same_text env.lower_text w.db
        → (get_case_study_by_id env k true w).0 ≡ ok study
        → IsOfPublicProject w.db study
    unfolding get_case_study_by_id find_case_study run_app
    get_case_study_by_id-IsOfPublicProject k w study c one =
        shown (find here w.db.case_studies) refl (
          rw
            (select_by_id env laws (λ (m : CaseStudyModel). m.id) k here w.db.case_studies
              (λ m h. ground arith) c.case_study_ids)
            at one)
      where
        here : CaseStudyModel → Bool
        here m = case_study_id_is k m && seen env w.db true m

        shown :
            (o : Option CaseStudyModel)
            → find here w.db.case_studies ≡ o
            → (next
                (ok (Option.map (to_case_study_entity env) o), w)
                (λ found. or_raise found (resource_not_found "Case study not found"))).0
              ≡ ok study
            → IsOfPublicProject w.db study
        shown none f h = absurd (cc)
        shown (some m) f h =
            let good : here m ≡ true = find-holds here w.db.case_studies m f in
            let same : to_case_study_entity env m ≡ study = cc in
            rw (← same) (entity-IsOfPublicProject w.db m (ground arith))

    -- The public list shows no case study of a private project: it always returns, and the project
    -- of each case study in it is public.
    pub all_case_studies-IsOfPublicProject :
        (w : World)
        → (studies : List CaseStudy) × (all_case_studies env true w ≡ (ok studies, w))
          × All (IsOfPublicProject w.db) studies
    unfolding all_case_studies list_case_studies run_app
    all_case_studies-IsOfPublicProject w = (
      map (to_case_study_entity env) page,
      refl,
      map-All (to_case_study_entity env) (λ m. seen env w.db true m ≡ true) (IsOfPublicProject w.db)
          page (entity-IsOfPublicProject w.db)
          (page-All env laws le (λ a b. ground arith) (seen env w.db true) 0 none
            w.db.case_studies),
    )
      where
        le : CaseStudyModel → CaseStudyModel → Bool
        le a b = leb a.created_at b.created_at

        page : List CaseStudyModel
        page = env.page le 0 none (filter (seen env w.db true) w.db.case_studies)
