-- ===== src/Api/Access/Company.antt =====
-- The admin router of Api/Company, for a caller without access.
use ch_tech_landing_page_bac.App.Outside.{Env}
use ch_tech_landing_page_bac.Api.Http.{Caller}
use ch_tech_landing_page_bac.Api.Access.Guards.{HasNoAccess, IsRefused, refusal_rules}
use ch_tech_landing_page_bac.Api.Company.{Admin, call_update_company, serve_admin, update_company}

pub serve_admin-IsRefused :
    (env : Env) (caller : Caller)
    → HasNoAccess env caller
    → (r : Admin) → IsRefused (serve_admin env caller r)
unfolding serve_admin update_company
serve_admin-IsRefused env caller h (call_update_company payload) = search refusal_rules
