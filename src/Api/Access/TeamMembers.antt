-- ===== src/Api/Access/TeamMembers.antt =====
-- The admin router of Api/TeamMembers, for a caller without access.
use ch_tech_landing_page_bac.App.Outside.{Env}
use ch_tech_landing_page_bac.Api.Http.{Caller}
use ch_tech_landing_page_bac.Api.Access.Guards.{HasNoAccess, IsRefused, refusal_rules}
use ch_tech_landing_page_bac.Api.TeamMembers.{
  Admin, call_list_admin_team_members, call_get_admin_team_member, call_create_team_member,
  call_update_team_member, call_delete_team_member, serve_admin, list_admin_team_members,
  get_admin_team_member, create_team_member, update_team_member, delete_team_member,
}

pub serve_admin-IsRefused :
    (env : Env) (caller : Caller)
    → HasNoAccess env caller
    → (r : Admin) → IsRefused (serve_admin env caller r)
unfolding serve_admin list_admin_team_members get_admin_team_member create_team_member
    update_team_member delete_team_member
serve_admin-IsRefused env caller h call_list_admin_team_members = search refusal_rules
serve_admin-IsRefused env caller h (call_get_admin_team_member team_member_id) =
    search refusal_rules
serve_admin-IsRefused env caller h (call_create_team_member payload) = search refusal_rules
serve_admin-IsRefused env caller h (call_update_team_member team_member_id payload) =
    search refusal_rules
serve_admin-IsRefused env caller h (call_delete_team_member team_member_id) = search refusal_rules
