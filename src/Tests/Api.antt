-- ===== src/Tests/Api.antt =====
-- Requests in the environment in memory.
use ch_tech_landing_page_bac.Base.{true, false, none, some, [], ◌∷◌, ◌≡◌, refl}
use ch_tech_landing_page_bac.Errors.{ok, conflict}
use ch_tech_landing_page_bac.Text.{text}
use ch_tech_landing_page_bac.Domain.Enums.{planning, private}
use ch_tech_landing_page_bac.Auth.Security.{get_current_user_id, decode_access_token}
use ch_tech_landing_page_bac.RateLimit.{
  limit_ip, check_rate_limit, redis_incr, redis_expire, start_window, refuse,
}
use ch_tech_landing_page_bac.Api.Http.{Caller, admin_write, admin_write_limit}
use ch_tech_landing_page_bac.Api.Projects.{
  ProjectWrite, ProjectDetail, to_detail, to_technology_summary, to_project_input, create_project,
  get_admin_project, call_create_project, valid,
}
use ch_tech_landing_page_bac.Api.Requests.{projects, admin, serve}
use ch_tech_landing_page_bac.Api.Access.Guards.{refused}
use ch_tech_landing_page_bac.Api.Access.Requests.{serve-refused}
use ch_tech_landing_page_bac.Api.Responses.{handle, http_exception_handler}
use ch_tech_landing_page_bac.Api.Responses.Codes.{handle-http_exception_handler}
use ch_tech_landing_page_bac.Api.RoundTrip.{create_project-get_admin_project}
use ch_tech_landing_page_bac.Tests.Memory.{memory, memory_laws}
use ch_tech_landing_page_bac.Tests.Catalogue.{world, program}

abbrev guest : Caller
guest = record { host = none; bearer = none; user_agent = none }

-- The administrator 1, whose token is good for a long time.
abbrev signed_in : Caller
signed_in = record guest { bearer = some (100_000_000_000_000_000 ∷ text "1") }

abbrev pub payload : ProjectWrite
payload = record {
  slug = text "blog";
  title = text "Blog";
  short_description = none;
  full_description = none;
  repository_url = none;
  live_demo_url = none;
  cover_image = none;
  status = planning;
  visibility = private;
  featured = false;
  started_at = none;
  finished_at = none;
  technology_ids = 5 ∷ [];
}

serve-refused_example :
    ((serve memory guest (admin (projects (call_create_project payload))) world).1.db ≡ world.db)
    × (refused (serve memory guest (admin (projects (call_create_project payload))) world).0 ≡ true)
serve-refused_example =
    serve-refused memory guest (admin (projects (call_create_project payload))) world
      (λ t token e. absurd (cc)) refl

handle-http_exception_handler_example :
    (handle (conflict "Taken")).error.code
    ≡ (http_exception_handler (handle (conflict "Taken")).status_code "").error.code
unfolding handle
handle-http_exception_handler_example =
    handle-http_exception_handler (conflict "Taken") "" refl refl

-- To run the handlers.
requests : Unit {0}
unfolding program create_project get_admin_project admin_write admin_write_limit valid to_detail
    to_project_input to_technology_summary get_current_user_id decode_access_token limit_ip
    check_rate_limit redis_incr redis_expire start_window refuse
requests = tt

abbrev posted : ProjectDetail
posted = record {
  id = 1000;
  slug = text "blog";
  title = text "Blog";
  short_description = none;
  full_description = none;
  repository_url = none;
  live_demo_url = none;
  cover_image = none;
  status = text "PLANNING";
  visibility = text "PRIVATE";
  featured = false;
  started_at = none;
  finished_at = none;
  technologies = (record { id = 5; name = text "Python"; category = some (text "Language") }) ∷ [];
  created_at = memory.clock_at 3;
  updated_at = memory.clock_at 4;
}

create_project-get_admin_project_example :
    (get_admin_project memory signed_in 1000 (create_project memory signed_in payload world).1).0
    ≡ ok posted
unfolding requests
create_project-get_admin_project_example =
    create_project-get_admin_project memory memory_laws signed_in signed_in payload posted
      (text "1") world refl refl
