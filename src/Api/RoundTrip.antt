-- ===== src/Api/RoundTrip.antt =====
-- A project that is posted and then asked for, guards and schemas included.
use ch_tech_landing_page_bac.Base.{Bool, not, ◌≡◌, ◌∙◌, refl, sym, ap}
use ch_tech_landing_page_bac.Errors.{Result, ok, err, request_validation_error}
use ch_tech_landing_page_bac.Text.{Str}
use ch_tech_landing_page_bac.Models.{Uuid}
use ch_tech_landing_page_bac.App.{App, World, ◌>>=◌, ◌>>◌, raise_if, lift, pure}
use ch_tech_landing_page_bac.App.Returns.{bind-ok, then-ok, next-result}
use ch_tech_landing_page_bac.App.Outside.{Env, SqlLaws}
use ch_tech_landing_page_bac.Auth.Security.{get_current_user_id}
use ch_tech_landing_page_bac.Auth.Tables.{get_current_user_id-Keeps}
use ch_tech_landing_page_bac.Api.Http.{Caller, admin_read, admin_write, admin_write_limit}
use ch_tech_landing_page_bac.Api.Projects.{
  ProjectWrite, ProjectDetail, to_detail, to_project_input, valid, create_project,
  get_admin_project,
}
use ch_tech_landing_page_bac.Content.Projects as Stored
use ch_tech_landing_page_bac.Content.Projects.{
  ProjectInput, ProjectWithTechnologies, to_row, to_project_entity,
}
use ch_tech_landing_page_bac.Content.Projects.Reading.{to_row-Shows}
use ch_tech_landing_page_bac.Content.Projects.RoundTrip.{
  created_row, created_db, created, get_project_by_id-created,
}

abbrev id_in : Uuid → Result ProjectDetail → Uuid
id_in k (ok d) = d.id
id_in k (err e) = k

module _ (env : Env) where
  -- The identifier of a row that was made is that of its detail.
  to_row-id :
      (input : ProjectInput) (w : World) (row : ProjectWithTechnologies)
      → to_row env (created_db env input w) (created_row env input w) ≡ ok row
      → (to_detail row).id ≡ env.uuid_at w.uuids
  unfolding to_detail
  to_row-id input w row e =
      let (_, is_id, _) =
        to_row-Shows env (created_db env input w) input (created_row env input w) row e in
      is_id

  -- A handler behind the guards of a write that returns is the handler itself in a later world.
  admin_write-ok :
      {A : Type 0} (caller : Caller) (valid : Bool) (m : Str → App A) (a : A) (w : World)
      → (admin_write env caller valid m w).0 ≡ ok a
      → (user : Str) × (w' : World) × (admin_write env caller valid m w ≡ m user w')
        × ((m user w').0 ≡ ok a)
  unfolding admin_write
  admin_write-ok caller valid m a w e =
      let (w1, e1, h1) =
        then-ok (admin_write_limit env caller)
          (get_current_user_id env caller.bearer
            >>= (λ user. raise_if (not valid) request_validation_error >> m user))
          a w e in
      let (user, w2, _, e2, h2) =
        bind-ok (get_current_user_id env caller.bearer)
          (λ user. raise_if (not valid) request_validation_error >> m user) a w1 h1 in
      let (w3, e3, h3) = then-ok (raise_if (not valid) request_validation_error) (m user) a w2 h2 in
      (user, w3, e1 ∙ (e2 ∙ e3), h3)

  -- A read behind its guard.
  get_admin_project-ok :
      (caller : Caller) (k : Uuid) (w w' : World) (user : Str) (row : ProjectWithTechnologies)
      → get_current_user_id env caller.bearer w ≡ (ok user, w')
      → (Stored.get_project_by_id env k w').0 ≡ ok row
      → (get_admin_project env caller k w).0 ≡ ok (to_detail row)
  unfolding get_admin_project admin_read ◌>>=◌ pure
  get_admin_project-ok caller k w w' user row e h =
      rw (e, next-result (Stored.get_project_by_id env k w') _ row h) refl

  -- What a `POST` that returns has done: the use case made a row, and the detail is that of the row.
  create_project-ok :
      (caller : Caller) (payload : ProjectWrite) (detail : ProjectDetail) (w : World)
      → (create_project env caller payload w).0 ≡ ok detail
      → (input : ProjectInput) × (before after : World) × (row : ProjectWithTechnologies)
        × (Stored.create_project env input before ≡ (ok row, after))
        × (create_project env caller payload w ≡ (ok (to_detail row), after))
  unfolding create_project pure
  create_project-ok caller payload detail w e =
      let (user, w1, e1, h1) = admin_write-ok caller (valid env payload) _ detail w e in
      let (input, w2, _, e2, h2) = bind-ok (lift (to_project_input payload)) _ detail w1 h1 in
      let (row, w3, made, e3, h3) =
        bind-ok (Stored.create_project env input) (λ row. pure (to_detail row)) detail w2 h2 in
      (input, w2, w3, row, made, e1 ∙ (e2 ∙ e3))

  module _ (laws : SqlLaws env) where
    -- A project whose `POST` returned is what a `GET` of the admin router then returns under its
    -- identifier, with the same fields, to any caller who is signed in.
    pub create_project-get_admin_project :
        (caller reader : Caller) (payload : ProjectWrite) (detail : ProjectDetail) (user : Str)
        (w : World)
        → (create_project env caller payload w).0 ≡ ok detail
        → (get_current_user_id env reader.bearer (create_project env caller payload w).1).0
          ≡ ok user
        → (get_admin_project env reader detail.id (create_project env caller payload w).1).0
          ≡ ok detail
    create_project-get_admin_project caller reader payload detail user w done signed_in =
        let (input, before, after, row, made, same) =
          create_project-ok caller payload detail w done in
        let (good, read, tables) = created env input before row (ap (λ r. r.0) made) in
        let shown : ok (to_detail row) ≡ ok detail = ap (λ r. r.0) (sym same) ∙ done in
        let asked = get_current_user_id env reader.bearer after in
        let kept : asked.1.db ≡ after.db =
          (get_current_user_id-Keeps {P = λ db. db ≡ after.db} env reader.bearer).at after refl in
        let tables' : after.db ≡ created_db env input before =
          ap (λ r. r.1.db) (sym made) ∙ tables in
        let answer =
          get_admin_project-ok reader (env.uuid_at before.uuids) after asked.1 user row
            (ap (λ r. (r, asked.1))
              (ap (λ r. (get_current_user_id env reader.bearer r.1).0) (sym same) ∙ signed_in))
            (get_project_by_id-created env laws input before asked.1 good (kept ∙ tables')
              ∙ read) in
        let id : detail.id ≡ env.uuid_at before.uuids =
          ap (λ r. id_in detail.id r) (sym shown) ∙ to_row-id input before row read in
        ap (λ k. (get_admin_project env reader k (create_project env caller payload w).1).0) id
        ∙ (ap (λ r. (get_admin_project env reader (env.uuid_at before.uuids) r.1).0) same
            ∙ (answer ∙ shown))
