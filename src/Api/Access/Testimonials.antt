-- ===== src/Api/Access/Testimonials.antt =====
-- The admin router of Api/Testimonials, for a caller without access.
use ch_tech_landing_page_bac.App.Outside.{Env}
use ch_tech_landing_page_bac.Api.Http.{Caller}
use ch_tech_landing_page_bac.Api.Access.Guards.{HasNoAccess, IsRefused, refusal_rules}
use ch_tech_landing_page_bac.Api.Testimonials.{
  Admin, call_create_testimonial, call_update_testimonial, call_delete_testimonial, serve_admin,
  create_testimonial, update_testimonial, delete_testimonial,
}

pub serve_admin-IsRefused :
    (env : Env) (caller : Caller)
    → HasNoAccess env caller
    → (r : Admin) → IsRefused (serve_admin env caller r)
unfolding serve_admin create_testimonial update_testimonial delete_testimonial
serve_admin-IsRefused env caller h (call_create_testimonial payload) = search refusal_rules
serve_admin-IsRefused env caller h (call_update_testimonial testimonial_id payload) =
    search refusal_rules
serve_admin-IsRefused env caller h (call_delete_testimonial testimonial_id) = search refusal_rules
