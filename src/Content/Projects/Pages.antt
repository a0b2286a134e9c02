-- ===== src/Content/Projects/Pages.antt =====
-- A page of the public list of projects.
use ch_tech_landing_page_bac.Base.{
  ℕ, ◌≤◌, ◌-◌, ◌*◌, Bool, true, false, ◌&&◌, not, some, List, [], ◌∷◌, ◌≡◌, ◌⊎◌, filter, All,
  All-filter, Bool-cases, inl, inr, length, length-filter-le, arith, ◌==◌,
}
use ch_tech_landing_page_bac.Errors.{ok}
use ch_tech_landing_page_bac.Text.{Str, text, str_eq}
use ch_tech_landing_page_bac.Domain.Enums.{public}
use ch_tech_landing_page_bac.Models.{ProjectModel}
use ch_tech_landing_page_bac.App.{World, run_app}
use ch_tech_landing_page_bac.App.Outside.{Env, SqlLaws}
use ch_tech_landing_page_bac.App.Pages.{page-All, page-length, traverse-All}
use ch_tech_landing_page_bac.Content.Projects.{ProjectWithTechnologies, to_row}
use ch_tech_landing_page_bac.Content.Projects.Privacy.{to_row-visibility}
use ch_tech_landing_page_bac.Content.Projects.Listing.{
  ProjectFilters, unique_rows, meets, joined, in_order, list_projects,
}

unique_rows-All :
    (P : ProjectModel → Type 0) (rows : List ProjectModel) → All P rows → All P (unique_rows rows)
unique_rows-All P [] h = tt
unique_rows-All P (m ∷ rows) (p, h) =
    (p, All-filter P _ (unique_rows rows) (unique_rows-All P rows h))

length-unique_rows-le : (rows : List ProjectModel) → length (unique_rows rows) ≤ length rows
length-unique_rows-le [] = omega arith
length-unique_rows-le (m ∷ rows) = omega (
  arith,
  length-filter-le (λ (r : ProjectModel). not (r.id == m.id)) (unique_rows rows),
  length-unique_rows-le rows,
)

module _ (env : Env) where
  in_order-total :
      (sort : Str)
      → ((a b : Str) → (env.text_le a b ≡ true) ⊎ (env.text_le b a ≡ true))
      → (a b : ProjectModel) → (in_order env sort a b ≡ true) ⊎ (in_order env sort b a ≡ true)
  in_order-total sort total a b = elim (Bool-cases (str_eq sort (text "title"))) [
    | inl e ↦ rw e (total a.title b.title)
    | inr e ↦ rw e (ground arith)
  ]

  module _ (laws : SqlLaws env) where
    -- The public list of projects, whatever its filters, order and page: every project that it
    -- returns is public, and there are at most as many as the limit. The collation tells PRIVATE
    -- from PUBLIC and orders all titles.
    pub list_projects-page :
        (filters : ProjectFilters) (w : World) (rows : List ProjectWithTechnologies)
        → ((a b : Str) → (env.text_le a b ≡ true) ⊎ (env.text_le b a ≡ true))
        → env.same_text (text "PRIVATE") (text "PUBLIC") ≡ false
        → (list_projects env filters true w).0 ≡ ok rows
        → All (λ row. row.project.visibility ≡ public) rows × (length rows ≤ filters.limit)
    unfolding list_projects run_app
    list_projects-page filters w rows total differ e =
        elim (Bool-cases (filters.page == 0 && not (filters.limit == 0))) [
          | inl bad ↦ absurd (let e' = rw bad at e in cc)
          | inr good ↦
              (let e' = rw good at e in
                let n : ℕ = (filters.page - 1) * filters.limit in
                let found : List ProjectModel =
                  filter (meets env filters true) (joined env filters.technology w.db) in
                let le : ProjectModel → ProjectModel → Bool = in_order env filters.sort in
                let page : List ProjectModel = env.page le n (some filters.limit) found in
                let (shown, same) =
                  traverse-All (to_row env w.db) (λ m. meets env filters true m ≡ true)
                    (λ row. row.project.visibility ≡ public) (unique_rows page) rows
                    (λ m row h read. to_row-visibility env w.db m row differ (ground arith) read)
                    (unique_rows-All _ page (
                      page-All env laws le (in_order-total filters.sort total)
                        (meets env filters true) n (some filters.limit)
                        (joined env filters.technology w.db)))
                    e' in
                (
                  shown,
                  omega (
                    arith,
                    same,
                    length-unique_rows-le page,
                    page-length env laws le (in_order-total filters.sort total) n filters.limit
                        found,
                  ),
                ))
        ]
