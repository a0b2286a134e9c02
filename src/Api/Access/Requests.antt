-- ===== src/Api/Access/Requests.antt =====
-- Every request that needs a session, for a caller without access.
use ch_tech_landing_page_bac.Base.{Bool, true, false, ◌≡◌}
use ch_tech_landing_page_bac.App.{World}
use ch_tech_landing_page_bac.App.Outside.{Env}
use ch_tech_landing_page_bac.Api.Auth as Auth
use ch_tech_landing_page_bac.Api.Http.{Caller}
use ch_tech_landing_page_bac.Api.Access.Guards.{
  HasNoAccess, IsRefused, refused, bind-IsRefused, get_current_user_id-IsRefused,
}
use ch_tech_landing_page_bac.Api.Access.Projects
use ch_tech_landing_page_bac.Api.Access.Technologies
use ch_tech_landing_page_bac.Api.Access.Services
use ch_tech_landing_page_bac.Api.Access.Articles
use ch_tech_landing_page_bac.Api.Access.CaseStudies
use ch_tech_landing_page_bac.Api.Access.Company
use ch_tech_landing_page_bac.Api.Access.ServiceLines
use ch_tech_landing_page_bac.Api.Access.Clients
use ch_tech_landing_page_bac.Api.Access.Partners
use ch_tech_landing_page_bac.Api.Access.Testimonials
use ch_tech_landing_page_bac.Api.Access.Products
use ch_tech_landing_page_bac.Api.Access.TeamMembers
use ch_tech_landing_page_bac.Api.Requests.{
  Admin, Request, admin, logout, projects, technologies, services, articles, case_studies, company,
  service_lines, clients, partners, testimonials, products, team_members, serve_admin, serve,
}

-- The requests of the admin routers, and logout.
abbrev pub needs_session : Request → Bool
needs_session (admin r) = true
needs_session (logout p) = true
needs_session r = false

serve_admin-IsRefused :
    (env : Env) (caller : Caller)
    → HasNoAccess env caller
    → (r : Admin) → IsRefused (serve_admin env caller r)
unfolding serve_admin
serve_admin-IsRefused env caller h (projects r) = Projects.serve_admin-IsRefused env caller h r
serve_admin-IsRefused env caller h (technologies r) =
    Technologies.serve_admin-IsRefused env caller h r
serve_admin-IsRefused env caller h (services r) = Services.serve_admin-IsRefused env caller h r
serve_admin-IsRefused env caller h (articles r) = Articles.serve_admin-IsRefused env caller h r
serve_admin-IsRefused env caller h (case_studies r) =
    CaseStudies.serve_admin-IsRefused env caller h r
serve_admin-IsRefused env caller h (company r) = Company.serve_admin-IsRefused env caller h r
serve_admin-IsRefused env caller h (service_lines r) =
    ServiceLines.serve_admin-IsRefused env caller h r
serve_admin-IsRefused env caller h (clients r) = Clients.serve_admin-IsRefused env caller h r
serve_admin-IsRefused env caller h (partners r) = Partners.serve_admin-IsRefused env caller h r
serve_admin-IsRefused env caller h (testimonials r) =
    Testimonials.serve_admin-IsRefused env caller h r
serve_admin-IsRefused env caller h (products r) = Products.serve_admin-IsRefused env caller h r
serve_admin-IsRefused env caller h (team_members r) =
    TeamMembers.serve_admin-IsRefused env caller h r

-- A caller who sends no bearer token, or one that PyJWT refuses, gets nowhere with a request of the
-- admin routers or a logout, however many payloads and identifiers it tries: no table changes, and
-- the answer is an error of status 401 or 429.
pub serve-refused :
    (env : Env) (caller : Caller) (r : Request) (w : World)
    → HasNoAccess env caller
    → needs_session r ≡ true
    → ((serve env caller r w).1.db ≡ w.db) × (refused (serve env caller r w).0 ≡ true)
unfolding serve Auth.logout
serve-refused env caller (admin r) w h needs = (serve_admin-IsRefused env caller h r).at w
serve-refused env caller (logout p) w h needs =
    (bind-IsRefused _ _ (get_current_user_id-IsRefused env caller h)).at w
serve-refused env caller _ w h needs = absurd (cc)
