-- ===== src/Api/TeamMembers.antt =====
-- app/api/v1/team_members.py and app/schemas/team_member.py: the payloads, the responses and the handlers.
use ch_tech_landing_page_bac.Base.{Bool, true, false, ◌&&◌, Option, List, map}
use ch_tech_landing_page_bac.Base.Int.{ℤ}
use ch_tech_landing_page_bac.Text.{Str}
use ch_tech_landing_page_bac.Domain.Time.{Time}
use ch_tech_landing_page_bac.Domain.ValueObjects.{make_image, make_url}
use ch_tech_landing_page_bac.Models.{Uuid}
use ch_tech_landing_page_bac.App.{App, ◌>>=◌, pure}
use ch_tech_landing_page_bac.App.Outside.{Env}
use ch_tech_landing_page_bac.Api.Http.{
  Caller, Body, items, item, no_content, public_endpoint, admin_read, admin_write, at_most, every,
  is_ok, image_text, url_text,
}
use ch_tech_landing_page_bac.Domain.Entities.{TeamMember}
use ch_tech_landing_page_bac.Content.TeamMembers
use ch_tech_landing_page_bac.Content.TeamMembers.{TeamMemberInput}

pub record TeamMemberItem : Type 0 where
  pub id : Uuid
  pub user_id : Option Uuid
  pub name : Str
  pub role : Str
  pub bio : Option Str
  pub photo : Option Str
  pub linkedin_url : Option Str
  pub github_url : Option Str
  pub display_order : ℤ
  pub active : Bool
  pub created_at : Time
  pub updated_at : Time

-- A payload whose fields have their types, which Pydantic checks before it runs the rest.
pub record TeamMemberWrite : Type 0 where
  pub user_id : Option Uuid
  pub name : Str
  pub role : Str
  pub bio : Option Str
  pub photo : Option Str
  pub linkedin_url : Option Str
  pub github_url : Option Str
  pub display_order : ℤ
  pub active : Bool

-- `_to_item`
unfoldable pub to_item : TeamMember → TeamMemberItem
to_item member = record {
  id = member.id;
  user_id = member.user_id;
  name = member.name;
  role = member.role;
  bio = member.bio;
  photo = image_text member.photo;
  linkedin_url = url_text member.linkedin_url;
  github_url = url_text member.github_url;
  display_order = member.display_order;
  active = member.active;
  created_at = member.created_at;
  updated_at = member.updated_at;
}

-- `_to_input`
unfoldable pub to_input : TeamMemberWrite → TeamMemberInput
to_input payload = record {
  user_id = payload.user_id;
  name = payload.name;
  role = payload.role;
  bio = payload.bio;
  photo = payload.photo;
  linkedin_url = payload.linkedin_url;
  github_url = payload.github_url;
  display_order = payload.display_order;
  active = payload.active;
}

-- The routes of the public router.
pub data Public : Type 0 where
  call_list_team_members : Public
  call_get_team_member : Uuid → Public

-- The routes of the admin router.
pub data Admin : Type 0 where
  call_list_admin_team_members : Admin
  call_get_admin_team_member : Uuid → Admin
  call_create_team_member : TeamMemberWrite → Admin
  call_update_team_member : Uuid → TeamMemberWrite → Admin
  call_delete_team_member : Uuid → Admin

module _ (env : Env) where
  -- The bounds and validators of `TeamMemberWrite`.
  unfoldable pub valid : TeamMemberWrite → Bool
  valid payload =
      at_most 150 payload.name
      && (at_most 150 payload.role
          && (every (at_most 2000) payload.bio
              && (every (λ s. is_ok (make_image env.unicode s)) payload.photo
                  && (every (λ s. is_ok (make_url env.unicode s)) payload.linkedin_url
                      && (every (λ s. is_ok (make_url env.unicode s)) payload.github_url)))))

  -- `GET /` of the public router.
  unfoldable pub list_team_members : Caller → App (List TeamMemberItem)
  list_team_members caller =
      public_endpoint env caller
        (do found ← TeamMembers.all_team_members env true; pure (map to_item found))

  -- `GET /{team_member_id}` of the public router.
  unfoldable pub get_team_member : Caller → Uuid → App TeamMemberItem
  get_team_member caller team_member_id =
      public_endpoint env caller
        (do found ← TeamMembers.get_team_member_by_id env team_member_id true; pure (to_item found))

  -- `GET /` of the admin router.
  unfoldable pub list_admin_team_members : Caller → App (List TeamMemberItem)
  list_admin_team_members caller =
      admin_read env caller
        λ user. (do found ← TeamMembers.all_team_members env false; pure (map to_item found))

  -- `GET /{team_member_id}` of the admin router.
  unfoldable pub get_admin_team_member : Caller → Uuid → App TeamMemberItem
  get_admin_team_member caller team_member_id = admin_read env caller λ user. (do
    found ← TeamMembers.get_team_member_by_id env team_member_id false
    pure (to_item found))

  -- `POST /` of the admin router.
  unfoldable pub create_team_member : Caller → TeamMemberWrite → App TeamMemberItem
  create_team_member caller payload = admin_write env caller (valid payload) λ user. (do
    found ← TeamMembers.create_team_member env (to_input payload)
    pure (to_item found))

  -- `PUT /{team_member_id}` of the admin router.
  unfoldable pub update_team_member : Caller → Uuid → TeamMemberWrite → App TeamMemberItem
  update_team_member caller team_member_id payload = admin_write env caller (valid payload) λ user.
      (do
        found ← TeamMembers.update_team_member env team_member_id (to_input payload)
        pure (to_item found))

  -- `DELETE /{team_member_id}` of the admin router.
  unfoldable pub delete_team_member : Caller → Uuid → App (Unit {0})
  delete_team_member caller team_member_id =
      admin_write env caller true λ user. (TeamMembers.delete_team_member env team_member_id)

  unfoldable pub serve_public : Caller → Public → App (Body TeamMemberItem TeamMemberItem)
  serve_public caller call_list_team_members = list_team_members caller >>= λ r. pure (items r)
  serve_public caller (call_get_team_member team_member_id) =
      get_team_member caller team_member_id >>= λ r. pure (item r)

  unfoldable pub serve_admin : Caller → Admin → App (Body TeamMemberItem TeamMemberItem)
  serve_admin caller call_list_admin_team_members =
      list_admin_team_members caller >>= λ r. pure (items r)
  serve_admin caller (call_get_admin_team_member team_member_id) =
      get_admin_team_member caller team_member_id >>= λ r. pure (item r)
  serve_admin caller (call_create_team_member payload) =
      create_team_member caller payload >>= λ r. pure (item r)
  serve_admin caller (call_update_team_member team_member_id payload) =
      update_team_member caller team_member_id payload >>= λ r. pure (item r)
  serve_admin caller (call_delete_team_member team_member_id) =
      delete_team_member caller team_member_id >>= λ r. pure no_content
