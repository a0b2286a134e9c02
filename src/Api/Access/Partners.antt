-- ===== src/Api/Access/Partners.antt =====
-- The admin router of Api/Partners, for a caller without access.
use ch_tech_landing_page_bac.App.Outside.{Env}
use ch_tech_landing_page_bac.Api.Http.{Caller}
use ch_tech_landing_page_bac.Api.Access.Guards.{HasNoAccess, IsRefused, refusal_rules}
use ch_tech_landing_page_bac.Api.Partners.{
  Admin, call_create_partner, call_update_partner, call_delete_partner, serve_admin, create_partner,
  update_partner, delete_partner,
}

pub serve_admin-IsRefused :
    (env : Env) (caller : Caller)
    → HasNoAccess env caller
    → (r : Admin) → IsRefused (serve_admin env caller r)
unfolding serve_admin create_partner update_partner delete_partner
serve_admin-IsRefused env caller h (call_create_partner payload) = search refusal_rules
serve_admin-IsRefused env caller h (call_update_partner partner_id payload) = search refusal_rules
serve_admin-IsRefused env caller h (call_delete_partner partner_id) = search refusal_rules
