-- ===== src/Api/Access/Articles.antt =====
-- The admin router of Api/Articles, for a caller without access.
use ch_tech_landing_page_bac.App.Outside.{Env}
use ch_tech_landing_page_bac.Api.Http.{Caller}
use ch_tech_landing_page_bac.Api.Access.Guards.{HasNoAccess, IsRefused, refusal_rules}
use ch_tech_landing_page_bac.Api.Articles.{
  Admin, call_list_admin_articles, call_get_admin_article, call_create_article, call_update_article,
  call_delete_article, serve_admin, list_admin_articles, get_admin_article, create_article,
  update_article, delete_article,
}

pub serve_admin-IsRefused :
    (env : Env) (caller : Caller)
    → HasNoAccess env caller
    → (r : Admin) → IsRefused (serve_admin env caller r)
unfolding serve_admin list_admin_articles get_admin_article create_article update_article
    delete_article
serve_admin-IsRefused env caller h (call_list_admin_articles page limit) = search refusal_rules
serve_admin-IsRefused env caller h (call_get_admin_article k) = search refusal_rules
serve_admin-IsRefused env caller h (call_create_article payload) = search refusal_rules
serve_admin-IsRefused env caller h (call_update_article k payload) = search refusal_rules
serve_admin-IsRefused env caller h (call_delete_article k) = search refusal_rules
