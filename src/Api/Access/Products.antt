-- ===== src/Api/Access/Products.antt =====
-- The admin router of Api/Products, for a caller without access.
use ch_tech_landing_page_bac.App.Outside.{Env}
use ch_tech_landing_page_bac.Api.Http.{Caller}
use ch_tech_landing_page_bac.Api.Access.Guards.{HasNoAccess, IsRefused, refusal_rules}
use ch_tech_landing_page_bac.Api.Products.{
  Admin, call_create_product, call_update_product, call_delete_product, serve_admin, create_product,
  update_product, delete_product,
}

pub serve_admin-IsRefused :
    (env : Env) (caller : Caller)
    → HasNoAccess env caller
    → (r : Admin) → IsRefused (serve_admin env caller r)
unfolding serve_admin create_product update_product delete_product
serve_admin-IsRefused env caller h (call_create_product payload) = search refusal_rules
serve_admin-IsRefused env caller h (call_update_product product_id payload) = search refusal_rules
serve_admin-IsRefused env caller h (call_delete_product product_id) = search refusal_rules
