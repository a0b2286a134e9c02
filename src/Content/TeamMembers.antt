-- ===== src/Content/TeamMembers.antt =====
-- Team members: app/infrastructure/repositories/team_member_repository.py and
-- app/application/use_cases/team_members.py. No `IntegrityError` is caught here.
use ch_tech_landing_page_bac.Base.{
  Bool, true, false, ◌&&◌, ◌||◌, not, Option, none, some, List, ◌∷◌, ◌==◌, filter, is_none,
}
use ch_tech_landing_page_bac.Base.Int.{ℤ, leb_ℤ}
use ch_tech_landing_page_bac.Base.Keys.{update_where, delete_where}
use ch_tech_landing_page_bac.Errors
use ch_tech_landing_page_bac.Errors.{
  Result, ok, err, optional, traverse, resource_not_found, conflict,
}
use ch_tech_landing_page_bac.Text.{Str}
use ch_tech_landing_page_bac.Domain.Entities.{TeamMember}
use ch_tech_landing_page_bac.Domain.ValueObjects.{make_url, make_image}
use ch_tech_landing_page_bac.Models.{Uuid, TeamMemberModel}
use ch_tech_landing_page_bac.App.{
  App, ◌>>=◌, ◌>>◌, pure, lift, get_db, or_raise, raise_if, now, uuid4, commit,
}
use ch_tech_landing_page_bac.App.Outside.{Env}
use ch_tech_landing_page_bac.App.Rows.{if_text, updated_time, unless_raise}
use ch_tech_landing_page_bac.Auth.Users.{get_by_id}

pub record TeamMemberInput : Type 0 where
  pub user_id : Option Uuid
  pub name : Str
  pub role : Str
  pub bio : Option Str
  pub photo : Option Str
  pub linkedin_url : Option Str
  pub github_url : Option Str
  pub display_order : ℤ
  pub active : Bool

abbrev pub team_member_id_is : Uuid → TeamMemberModel → Bool
team_member_id_is k m = m.id == k

-- The assignments of `update`.
abbrev pub assigned : TeamMemberInput → TeamMemberModel → TeamMemberModel
assigned input model = record model {
  user_id = input.user_id;
  name = input.name;
  role = input.role;
  bio = input.bio;
  photo = input.photo;
  linkedin_url = input.linkedin_url;
  github_url = input.github_url;
  display_order = input.display_order;
  active = input.active;
}

module _ (env : Env) where
  -- `_to_entity`
  unfoldable pub to_team_member_entity : TeamMemberModel → Result TeamMember
  to_team_member_entity model = Errors.◌>>=◌ (if_text (make_image env.unicode) model.photo) λ photo.
      Errors.◌>>=◌ (if_text (make_url env.unicode) model.linkedin_url) λ linkedin_url.
        Errors.◌>>=◌ (if_text (make_url env.unicode) model.github_url) λ github_url. ok (record {
          id = model.id;
          user_id = model.user_id;
          name = model.name;
          role = model.role;
          bio = model.bio;
          photo = photo;
          linkedin_url = linkedin_url;
          github_url = github_url;
          display_order = model.display_order;
          active = model.active;
          created_at = model.created_at;
          updated_at = model.updated_at;
        })

  abbrev pub shown : Bool → TeamMemberModel → Bool
  shown active_only m = not active_only || m.active

  -- `list`
  unfoldable pub list_team_members : Bool → App (List TeamMember)
  unfolding to_team_member_entity
  list_team_members active_only = do
    db ← get_db
    lift (
        traverse to_team_member_entity (
          env.page (λ a b. leb_ℤ a.display_order b.display_order) 0 none
            (filter (shown active_only) db.team_members)))

  -- `get_by_id`
  unfoldable pub find_team_member : Uuid → Bool → App (Option TeamMember)
  unfolding to_team_member_entity
  find_team_member k active_only = do
    db ← get_db
    found ←
        lift (env.select_one (λ m. team_member_id_is k m && shown active_only m) db.team_members)
    lift (optional to_team_member_entity found)

  -- `create`
  unfoldable pub insert_team_member : TeamMemberInput → App TeamMember
  unfolding to_team_member_entity
  insert_team_member input = do
    k ← uuid4 env
    created ← now env
    updated ← now env
    db ← get_db
    let model : TeamMemberModel = record {
      id = k;
      user_id = input.user_id;
      name = input.name;
      role = input.role;
      bio = input.bio;
      photo = input.photo;
      linkedin_url = input.linkedin_url;
      github_url = input.github_url;
      display_order = input.display_order;
      active = input.active;
      created_at = created;
      updated_at = updated;
    }
    let after = record db { team_members = model ∷ db.team_members }
    commit env after
    lift (to_team_member_entity model)

  unfoldable pub change_team_member :
      Option TeamMemberModel → TeamMemberInput → App (Option TeamMember)
  unfolding to_team_member_entity
  change_team_member none input = pure none
  change_team_member (some model) input = do
    stamp ← updated_time env model (assigned input model) model.updated_at
    db ← get_db
    let changed : TeamMemberModel = record (assigned input model) { updated_at = stamp }
    let after = record db {
      team_members = update_where (team_member_id_is model.id) (λ _. changed) db.team_members;
    }
    commit env after
    lift (optional to_team_member_entity (some changed))

  -- `update`
  unfoldable pub save_team_member : Uuid → TeamMemberInput → App (Option TeamMember)
  unfolding change_team_member
  save_team_member k input = do
    db ← get_db
    found ← lift (env.select_one (team_member_id_is k) db.team_members)
    change_team_member found input

  unfoldable pub drop_team_member : Option TeamMemberModel → App Bool
  drop_team_member none = pure false
  drop_team_member (some model) = do
    db ← get_db
    let after = record db {
      team_members = delete_where (team_member_id_is model.id) db.team_members;
    }
    commit env after
    pure true

  -- `delete`
  unfoldable pub remove_team_member : Uuid → App Bool
  unfolding drop_team_member
  remove_team_member k = do
    db ← get_db
    found ← lift (env.select_one (team_member_id_is k) db.team_members)
    drop_team_member found

  -- `ListTeamMembers.execute`
  unfoldable pub all_team_members : Bool → App (List TeamMember)
  all_team_members active_only = list_team_members active_only

  -- `GetTeamMemberById.execute`
  unfoldable pub get_team_member_by_id : Uuid → Bool → App TeamMember
  get_team_member_by_id k active_only = do
    found ← find_team_member k active_only
    or_raise found (resource_not_found "Team member not found")

  -- `data.user_id is not None and … get_by_id(data.user_id) is None`
  unfoldable pub check_user : Option Uuid → App (Unit {0})
  check_user none = pure tt
  check_user (some k) = do
    found ← get_by_id env k
    raise_if (is_none found) (resource_not_found "User not found")

  -- `CreateTeamMember.execute`
  unfoldable pub create_team_member : TeamMemberInput → App TeamMember
  unfolding check_user
  create_team_member input = do check_user input.user_id; insert_team_member input

  -- `UpdateTeamMember.execute`
  unfoldable pub update_team_member : Uuid → TeamMemberInput → App TeamMember
  unfolding check_user
  update_team_member k input = do
    check_user input.user_id
    found ← save_team_member k input
    or_raise found (resource_not_found "Team member not found")

  -- `DeleteTeamMember.execute`
  unfoldable pub delete_team_member : Uuid → App (Unit {0})
  delete_team_member k = do
    deleted ← remove_team_member k
    unless_raise deleted (resource_not_found "Team member not found")
