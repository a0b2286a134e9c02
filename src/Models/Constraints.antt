-- ===== src/Models/Constraints.antt =====
-- The constraints that app/models declares: primary keys, unique columns, foreign keys and CHECKs,
-- table by table. Texts are compared by the collation of the server, and `email_lower` is its `LOWER`
-- of the address. The lengths of the columns are not among them.
use ch_tech_landing_page_bac.Base.{
  Bool, true, [], ◌∷◌, ◌||◌, not, ◌&&◌, Option, none, some, List, ◌≡◌, ◌==◌, all, any, is_none,
}
use ch_tech_landing_page_bac.Base.Int.{ℤ, pos, leb_ℤ}
use ch_tech_landing_page_bac.Base.Keys.{Distinct}
use ch_tech_landing_page_bac.Text.{Str, text}
use ch_tech_landing_page_bac.Models.{
  Uuid, Association, UserModel, ProjectModel, ClientModel, TechnologyModel, ArticleModel,
  ServiceLineModel, Db,
}

-- A foreign key names a row.
abbrev pub refers : {A : Type 0} → (A → Uuid) → List A → Uuid → Bool
refers id rows k = any (λ r. id r == k) rows

-- A nullable foreign key is null or names a row.
abbrev pub may_refer : {A : Type 0} → (A → Uuid) → List A → Option Uuid → Bool
may_refer id rows none = true
may_refer id rows (some k) = refers id rows k

-- `ck_testimonials_rating_range`
abbrev pub rating_in_range : Option ℤ → Bool
rating_in_range none = true
rating_in_range (some n) = leb_ℤ (pos 1) n && leb_ℤ n (pos 5)

-- `column IN (…)`
abbrev pub is_in : (Str → Str → Bool) → List Str → Str → Bool
is_in same_text values s = any (same_text s) values

-- Both foreign keys of a link name rows.
abbrev pub links : {A : Type 0} → (A → Uuid) → List A → List TechnologyModel → Association → Bool
links id owners technologies p =
    refers id owners p.owner_id && refers (λ t. t.id) technologies p.technology_id

abbrev pub same_pair : Association → Association → Bool
same_pair a b = a.owner_id == b.owner_id && a.technology_id == b.technology_id

-- `ck_users_role`, `ck_projects_status`, `ck_projects_visibility`, `ck_products_status` and
-- `ck_contact_requests_status`
abbrev pub user_roles : List Str
user_roles = text "ADMIN" ∷ []

abbrev pub project_states : List Str
project_states = text "PLANNING" ∷ text "IN_PROGRESS" ∷ text "COMPLETED" ∷ text "ARCHIVED" ∷ []

abbrev pub visibilities : List Str
visibilities = text "PUBLIC" ∷ text "PRIVATE" ∷ []

abbrev pub product_states : List Str
product_states = text "WAITLIST" ∷ text "BETA" ∷ text "LIVE" ∷ []

abbrev pub contact_states : List Str
contact_states = text "NEW" ∷ text "READ" ∷ text "REPLIED" ∷ text "ARCHIVED" ∷ []

module _ (same_text : Str → Str → Bool) (lower_text : Str → Str) where
  -- What the database keeps true of the tables.
  pub record IsConsistent (db : Db) : Type 0 where
    pub user_ids : Distinct (λ a b. a.id == b.id) db.users
    pub user_emails : Distinct (λ a b. same_text a.email b.email) db.users
    pub user_emails_lower :
        Distinct (λ a b. same_text (lower_text a.email) (lower_text b.email)) db.users
    pub user_roles_known : all (λ u. is_in same_text user_roles u.role) db.users ≡ true
    pub token_ids : Distinct (λ a b. a.id == b.id) db.refresh_tokens
    pub token_hashes : Distinct (λ a b. same_text a.token_hash b.token_hash) db.refresh_tokens
    pub token_users :
        all (λ t. refers (λ (u : UserModel). u.id) db.users t.user_id) db.refresh_tokens ≡ true
    pub technology_ids : Distinct (λ a b. a.id == b.id) db.technologies
    pub technology_names : Distinct (λ a b. same_text a.name b.name) db.technologies
    pub project_ids : Distinct (λ a b. a.id == b.id) db.projects
    pub project_slugs : Distinct (λ a b. same_text a.slug b.slug) db.projects
    pub project_clients :
        all (λ p. may_refer (λ (c : ClientModel). c.id) db.clients p.client_id) db.projects ≡ true
    pub project_pairs : Distinct same_pair db.project_technologies
    pub project_links :
        all (links (λ (p : ProjectModel). p.id) db.projects db.technologies) db.project_technologies
        ≡ true
    pub project_states_known : all (λ p. is_in same_text project_states p.status) db.projects ≡ true
    pub project_visibilities :
        all (λ p. is_in same_text visibilities p.visibility) db.projects ≡ true
    pub article_ids : Distinct (λ a b. a.id == b.id) db.articles
    pub article_slugs : Distinct (λ a b. same_text a.slug b.slug) db.articles
    pub article_authors :
        all (λ a. refers (λ (u : UserModel). u.id) db.users a.author_id) db.articles ≡ true
    pub article_dates :
        all (λ a. not a.published || not (is_none a.published_at)) db.articles ≡ true
    pub article_pairs : Distinct same_pair db.article_technologies
    pub article_links :
        all (links (λ (a : ArticleModel). a.id) db.articles db.technologies) db.article_technologies
        ≡ true
    pub service_ids : Distinct (λ a b. a.id == b.id) db.services
    pub service_slugs : Distinct (λ a b. same_text a.slug b.slug) db.services
    pub service_service_lines :
        all
          (λ s. may_refer (λ (l : ServiceLineModel). l.id) db.service_lines s.service_line_id)
          db.services
        ≡ true
    pub service_line_ids : Distinct (λ a b. a.id == b.id) db.service_lines
    pub service_line_slugs : Distinct (λ a b. same_text a.slug b.slug) db.service_lines
    pub case_study_ids : Distinct (λ a b. a.id == b.id) db.case_studies
    pub case_study_projects :
        all (λ c. refers (λ (p : ProjectModel). p.id) db.projects c.project_id) db.case_studies
        ≡ true
    pub client_ids : Distinct (λ a b. a.id == b.id) db.clients
    pub testimonial_ids : Distinct (λ a b. a.id == b.id) db.testimonials
    pub testimonial_clients :
        all (λ t. may_refer (λ (c : ClientModel). c.id) db.clients t.client_id) db.testimonials
        ≡ true
    pub testimonial_projects :
        all (λ t. may_refer (λ (p : ProjectModel). p.id) db.projects t.project_id) db.testimonials
        ≡ true
    pub testimonial_ratings : all (λ t. rating_in_range t.rating) db.testimonials ≡ true
    pub company_ids : Distinct (λ a b. a.id == b.id) db.companies
    pub contact_ids : Distinct (λ a b. a.id == b.id) db.contact_requests
    pub contact_service_lines :
        all
          (λ r.
            may_refer
              (λ (l : ServiceLineModel). l.id)
              db.service_lines
              r.interested_service_line_id)
          db.contact_requests
        ≡ true
    pub contact_states_known :
        all (λ r. is_in same_text contact_states r.status) db.contact_requests ≡ true
    pub partner_ids : Distinct (λ a b. a.id == b.id) db.partners
    pub product_ids : Distinct (λ a b. a.id == b.id) db.products
    pub product_slugs : Distinct (λ a b. same_text a.slug b.slug) db.products
    pub product_states_known : all (λ p. is_in same_text product_states p.status) db.products ≡ true
    pub team_member_ids : Distinct (λ a b. a.id == b.id) db.team_members
    pub team_member_users :
        all (λ m. may_refer (λ (u : UserModel). u.id) db.users m.user_id) db.team_members ≡ true
