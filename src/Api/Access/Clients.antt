-- ===== src/Api/Access/Clients.antt =====
-- The admin router of Api/Clients, for a caller without access.
use ch_tech_landing_page_bac.App.Outside.{Env}
use ch_tech_landing_page_bac.Api.Http.{Caller}
use ch_tech_landing_page_bac.Api.Access.Guards.{HasNoAccess, IsRefused, refusal_rules}
use ch_tech_landing_page_bac.Api.Clients.{
  Admin, call_create_client, call_update_client, call_delete_client, serve_admin, create_client,
  update_client, delete_client,
}

pub serve_admin-IsRefused :
    (env : Env) (caller : Caller)
    → HasNoAccess env caller
    → (r : Admin) → IsRefused (serve_admin env caller r)
unfolding serve_admin create_client update_client delete_client
serve_admin-IsRefused env caller h (call_create_client payload) = search refusal_rules
serve_admin-IsRefused env caller h (call_update_client client_id payload) = search refusal_rules
serve_admin-IsRefused env caller h (call_delete_client client_id) = search refusal_rules
