-- ===== src/Api/Access/Technologies.antt =====
-- The admin router of Api/Technologies, for a caller without access.
use ch_tech_landing_page_bac.App.Outside.{Env}
use ch_tech_landing_page_bac.Api.Http.{Caller}
use ch_tech_landing_page_bac.Api.Access.Guards.{HasNoAccess, IsRefused, refusal_rules}
use ch_tech_landing_page_bac.Api.Technologies.{
  Admin, call_create_technology, call_update_technology, call_delete_technology, serve_admin,
  create_technology, update_technology, delete_technology,
}

pub serve_admin-IsRefused :
    (env : Env) (caller : Caller)
    → HasNoAccess env caller
    → (r : Admin) → IsRefused (serve_admin env caller r)
unfolding serve_admin create_technology update_technology delete_technology
serve_admin-IsRefused env caller h (call_create_technology payload) = search refusal_rules
serve_admin-IsRefused env caller h (call_update_technology technology_id payload) =
    search refusal_rules
serve_admin-IsRefused env caller h (call_delete_technology technology_id) = search refusal_rules
