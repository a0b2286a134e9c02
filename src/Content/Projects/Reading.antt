-- ===== src/Content/Projects/Reading.antt =====
-- What a project that reads back says of its row, and which links a write leaves.
use ch_tech_landing_page_bac.Base.{
  false, List, [], ◌∷◌, ◌==◌, any, ◌≡◌, refl, ap, sym, ◌∙◌, arith, if◌then◌else◌, Bool-cases, inl,
  inr, eqb→eq, eqb_refl,
}
use ch_tech_landing_page_bac.Base.Keys.{delete_where}
use ch_tech_landing_page_bac.Errors.{Result, ok, err, bind_ok, traverse}
use ch_tech_landing_page_bac.Text.{Str}
use ch_tech_landing_page_bac.Text.Regex.{fullmatch}
use ch_tech_landing_page_bac.Domain.Entities.{Project}
use ch_tech_landing_page_bac.Domain.Enums.{
  ProjectStatus, Visibility, planning, in_progress, completed, public, private, project_status,
  visibility, project_status_value, visibility_value,
}
use ch_tech_landing_page_bac.Domain.ValueObjects.{Slug, slug_re, make_slug, make_image, make_url}
use ch_tech_landing_page_bac.Models.{Uuid, ProjectModel, TechnologyModel, Association, Db}
use ch_tech_landing_page_bac.App.Outside.{Env}
use ch_tech_landing_page_bac.App.Rows.{if_text}
use ch_tech_landing_page_bac.Content.Technologies.{
  to_technology_entity, load_technologies, linked, owner_is, relink,
}
use ch_tech_landing_page_bac.Content.Projects.{
  ProjectInput, ProjectWithTechnologies, assigned, to_project_entity, to_row,
}

pub project_status-value : (s : ProjectStatus) → project_status (project_status_value s) ≡ ok s
unfolding project_status
project_status-value planning = refl
project_status-value in_progress = refl
project_status-value completed = refl
project_status-value ProjectStatus.archived = refl

pub visibility-value : (v : Visibility) → visibility (visibility_value v) ≡ ok v
unfolding visibility
visibility-value public = refl
visibility-value private = refl

abbrev slug_or : Str → Result Slug → Str
slug_or s (ok slug) = slug.value
slug_or s (err e) = s

-- A slug is the text that it is made of.
make_slug-value : (s : Str) (slug : Slug) → make_slug s ≡ ok slug → slug.value ≡ s
unfolding make_slug
make_slug-value s slug e = elim (Bool-cases (fullmatch slug_re s)) [
  | inl good ↦ (let e' = rw good at e in sym (ap (slug_or s) e'))
  | inr bad ↦ absurd (let e' = rw bad at e in cc)
]

abbrev ok_or : {A : Type 0} → A → Result A → A
ok_or a (ok b) = b
ok_or a (err e) = a

module _ (env : Env) where
  -- The project shows what was sent in, field by field: its texts as they are, and its addresses as
  -- the value objects of the texts.
  pub record Shows (input : ProjectInput) (p : Project) : Type 0 where
    pub slug : p.slug.value ≡ input.slug
    pub title : p.title ≡ input.title
    pub short_description : p.short_description ≡ input.short_description
    pub full_description : p.full_description ≡ input.full_description
    pub repository_url : if_text (make_url env.unicode) input.repository_url ≡ ok p.repository_url
    pub live_demo_url : if_text (make_url env.unicode) input.live_demo_url ≡ ok p.live_demo_url
    pub cover_image : if_text (make_image env.unicode) input.cover_image ≡ ok p.cover_image
    pub status : p.status ≡ input.status
    pub visibility : p.visibility ≡ input.visibility
    pub featured : p.featured ≡ input.featured
    pub started_at : p.started_at ≡ input.started_at
    pub finished_at : p.finished_at ≡ input.finished_at

  to_project_entity-Shows :
      (input : ProjectInput) (m : ProjectModel) (p : Project)
      → to_project_entity env (assigned input m) ≡ ok p
      → Shows input p × (p.id ≡ m.id) × (p.client_id ≡ m.client_id)
  unfolding to_project_entity
  to_project_entity-Shows input m p read =
      let (slug, e1, r1) = bind_ok (make_slug input.slug) _ p read in
      let (repo, e2, r2) = bind_ok (if_text (make_url env.unicode) input.repository_url) _ p r1 in
      let (demo, e3, r3) = bind_ok (if_text (make_url env.unicode) input.live_demo_url) _ p r2 in
      let (cover, e4, r4) = bind_ok (if_text (make_image env.unicode) input.cover_image) _ p r3 in
      let (status, e5, r5) = bind_ok (project_status (project_status_value input.status)) _ p r4 in
      let (v, e6, r6) = bind_ok (visibility (visibility_value input.visibility)) _ p r5 in
      let same : p ≡ _ = sym (ap (ok_or p) r6) in
      let is_status : status ≡ input.status =
        ap (ok_or status) (sym e5 ∙ project_status-value input.status) in
      let is_visibility : v ≡ input.visibility =
        ap (ok_or v) (sym e6 ∙ visibility-value input.visibility) in
      (
        record {
          slug = rw same (make_slug-value input.slug slug e1);
          title = rw same refl;
          short_description = rw same refl;
          full_description = rw same refl;
          repository_url = rw same e2;
          live_demo_url = rw same e3;
          cover_image = rw same e4;
          status = rw same is_status;
          visibility = rw same is_visibility;
          featured = rw same refl;
          started_at = rw same refl;
          finished_at = rw same refl;
        },
        rw same refl,
        rw same refl,
      )

  -- A row that reads back shows what was assigned to it.
  pub to_row-Shows :
      (db : Db) (input : ProjectInput) (m : ProjectModel) (row : ProjectWithTechnologies)
      → to_row env db (assigned input m) ≡ ok row
      → Shows input row.project × (row.project.id ≡ m.id) × (row.project.client_id ≡ m.client_id)
  unfolding to_row
  to_row-Shows db input m row e =
      let (p, read, rest) = bind_ok (to_project_entity env (assigned input m)) _ row e in
      let (ts, loaded, last) =
        bind_ok
          (traverse (to_technology_entity env)
            (load_technologies env db.project_technologies m.id db))
          _ row rest in
      let same : p ≡ row.project = ap (λ r. (ok_or row r).project) last in
      rw (← same) (to_project_entity-Shows input m p read)

unlinked :
    (k : Uuid) (pairs : List Association) (t : TechnologyModel)
    → linked (delete_where (owner_is k) pairs) k t ≡ false
unlinked k [] t = refl
unlinked k (p ∷ pairs) t = elim (Bool-cases (p.owner_id == k)) [
  | inl y ↦ rw y (unlinked k pairs t)
  | inr n ↦ rw (n, n) (unlinked k pairs t)
]

kept_links :
    (k j : Uuid) (pairs : List Association) (t : TechnologyModel)
    → k == j ≡ false
    → linked (delete_where (owner_is k) pairs) j t ≡ linked pairs j t
kept_links k j [] t d = refl
kept_links k j (p ∷ pairs) t d =
    let rest = kept_links k j pairs t d in
    elim (Bool-cases (p.owner_id == k)) [
      | inl y ↦
          let other : p.owner_id == j ≡ false = ground (arith, eqb→eq p.owner_id k y) in
          rw (y, other) rest
      | inr n ↦ rw (n, rest) refl
    ]

-- After relinking, an owner has just the technologies that were given.
relink-own :
    (k : Uuid) (techs : List TechnologyModel) (pairs : List Association) (t : TechnologyModel)
    → linked (relink k techs pairs) k t ≡ any (λ u. u.id == t.id) techs
relink-own k [] pairs t = unlinked k pairs t
relink-own k (u ∷ techs) pairs t = rw (eqb_refl k, relink-own k techs pairs t) refl

-- The links of other owners stay.
relink-other :
    (k j : Uuid) (techs : List TechnologyModel) (pairs : List Association) (t : TechnologyModel)
    → k == j ≡ false
    → linked (relink k techs pairs) j t ≡ linked pairs j t
relink-other k j [] pairs t d = kept_links k j pairs t d
relink-other k j (u ∷ techs) pairs t d = rw (d, relink-other k j techs pairs t d) refl

-- Who is linked with what after relinking.
pub linked-relink :
    (k j : Uuid) (techs : List TechnologyModel) (pairs : List Association) (t : TechnologyModel)
    → linked (relink k techs pairs) j t
      ≡ (if k == j then any (λ u. u.id == t.id) techs else linked pairs j t)
linked-relink k j techs pairs t = elim (Bool-cases (k == j)) [
  | inl y ↦ (let same = eqb→eq k j y in rw (y, ← same) (relink-own k techs pairs t))
  | inr n ↦ rw n (relink-other k j techs pairs t n)
]
