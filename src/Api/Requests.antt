-- ===== src/Api/Requests.antt =====
-- app/api/v1/__init__.py and app/api/health.py: the requests that the application answers, and what
-- answers them. Which path names which request, and how a body becomes a payload, is FastAPI's.
use ch_tech_landing_page_bac.Base.{Bool, true, List, [], ◌∷◌}
use ch_tech_landing_page_bac.App.{App, World, pure}
use ch_tech_landing_page_bac.App.Outside.{Env}
use ch_tech_landing_page_bac.Api.Http.{Caller, Body}
use ch_tech_landing_page_bac.Api.Auth
use ch_tech_landing_page_bac.Api.Auth.{LoginRequest, RefreshRequest, TokenResponse}
use ch_tech_landing_page_bac.Api.Contact
use ch_tech_landing_page_bac.Api.Contact.{ContactCreate, Submitted}
use ch_tech_landing_page_bac.Api.Projects
use ch_tech_landing_page_bac.Api.Projects.{ProjectListItem, ProjectDetail}
use ch_tech_landing_page_bac.Api.Technologies
use ch_tech_landing_page_bac.Api.Technologies.{TechnologyItem}
use ch_tech_landing_page_bac.Api.Services
use ch_tech_landing_page_bac.Api.Services.{ServiceItem}
use ch_tech_landing_page_bac.Api.Articles
use ch_tech_landing_page_bac.Api.Articles.{ArticleListItem, ArticleDetail}
use ch_tech_landing_page_bac.Api.CaseStudies
use ch_tech_landing_page_bac.Api.CaseStudies.{CaseStudyItem}
use ch_tech_landing_page_bac.Api.Company
use ch_tech_landing_page_bac.Api.Company.{CompanyItem}
use ch_tech_landing_page_bac.Api.ServiceLines
use ch_tech_landing_page_bac.Api.ServiceLines.{ServiceLineItem}
use ch_tech_landing_page_bac.Api.Clients
use ch_tech_landing_page_bac.Api.Clients.{ClientItem}
use ch_tech_landing_page_bac.Api.Partners
use ch_tech_landing_page_bac.Api.Partners.{PartnerItem}
use ch_tech_landing_page_bac.Api.Testimonials
use ch_tech_landing_page_bac.Api.Testimonials.{TestimonialItem}
use ch_tech_landing_page_bac.Api.Products
use ch_tech_landing_page_bac.Api.Products.{ProductItem}
use ch_tech_landing_page_bac.Api.TeamMembers
use ch_tech_landing_page_bac.Api.TeamMembers.{TeamMemberItem}

-- The requests of the public routers.
pub data Public : Type 0 where
  projects : Projects.Public → Public
  technologies : Technologies.Public → Public
  services : Services.Public → Public
  articles : Articles.Public → Public
  case_studies : CaseStudies.Public → Public
  company : Company.Public → Public
  service_lines : ServiceLines.Public → Public
  clients : Clients.Public → Public
  partners : Partners.Public → Public
  testimonials : Testimonials.Public → Public
  products : Products.Public → Public
  team_members : TeamMembers.Public → Public

-- The requests of the admin routers.
pub data Admin : Type 0 where
  projects : Projects.Admin → Admin
  technologies : Technologies.Admin → Admin
  services : Services.Admin → Admin
  articles : Articles.Admin → Admin
  case_studies : CaseStudies.Admin → Admin
  company : Company.Admin → Admin
  service_lines : ServiceLines.Admin → Admin
  clients : Clients.Admin → Admin
  partners : Partners.Admin → Admin
  testimonials : Testimonials.Admin → Admin
  products : Products.Admin → Admin
  team_members : TeamMembers.Admin → Admin

pub data Request : Type 0 where
  health : Request
  public : Public → Request
  admin : Admin → Request
  login : LoginRequest → Request
  logout : RefreshRequest → Request
  refresh : RefreshRequest → Request
  contact : ContactCreate → Request

abbrev pub PublicReply : Public → Type 0
PublicReply (projects r) = Body ProjectListItem ProjectDetail
PublicReply (technologies r) = Body TechnologyItem TechnologyItem
PublicReply (services r) = Body ServiceItem ServiceItem
PublicReply (articles r) = Body ArticleListItem ArticleDetail
PublicReply (case_studies r) = Body CaseStudyItem CaseStudyItem
PublicReply (company r) = Body CompanyItem CompanyItem
PublicReply (service_lines r) = Body ServiceLineItem ServiceLineItem
PublicReply (clients r) = Body ClientItem ClientItem
PublicReply (partners r) = Body PartnerItem PartnerItem
PublicReply (testimonials r) = Body TestimonialItem TestimonialItem
PublicReply (products r) = Body ProductItem ProductItem
PublicReply (team_members r) = Body TeamMemberItem TeamMemberItem

abbrev pub AdminReply : Admin → Type 0
AdminReply (projects r) = Body ProjectListItem ProjectDetail
AdminReply (technologies r) = Body TechnologyItem TechnologyItem
AdminReply (services r) = Body ServiceItem ServiceItem
AdminReply (articles r) = Body ArticleListItem ArticleDetail
AdminReply (case_studies r) = Body CaseStudyItem CaseStudyItem
AdminReply (company r) = Body CompanyItem CompanyItem
AdminReply (service_lines r) = Body ServiceLineItem ServiceLineItem
AdminReply (clients r) = Body ClientItem ClientItem
AdminReply (partners r) = Body PartnerItem PartnerItem
AdminReply (testimonials r) = Body TestimonialItem TestimonialItem
AdminReply (products r) = Body ProductItem ProductItem
AdminReply (team_members r) = Body TeamMemberItem TeamMemberItem

-- `data={"status": True}`
pub record HealthStatus : Type 0 where
  pub status : Bool

-- The response to each request.
abbrev pub Reply : Request → Type 0
Reply health = HealthStatus
Reply (public r) = PublicReply r
Reply (admin r) = AdminReply r
Reply (login p) = TokenResponse
Reply (logout p) = Unit
Reply (refresh p) = TokenResponse
Reply (contact p) = Submitted

-- `GET /health`
unfoldable pub health_check : App HealthStatus
health_check = pure (record { status = true })

module _ (env : Env) (caller : Caller) where
  unfoldable pub serve_public : (r : Public) → App (PublicReply r)
  serve_public (projects r) = Projects.serve_public env caller r
  serve_public (technologies r) = Technologies.serve_public env caller r
  serve_public (services r) = Services.serve_public env caller r
  serve_public (articles r) = Articles.serve_public env caller r
  serve_public (case_studies r) = CaseStudies.serve_public env caller r
  serve_public (company r) = Company.serve_public env caller r
  serve_public (service_lines r) = ServiceLines.serve_public env caller r
  serve_public (clients r) = Clients.serve_public env caller r
  serve_public (partners r) = Partners.serve_public env caller r
  serve_public (testimonials r) = Testimonials.serve_public env caller r
  serve_public (products r) = Products.serve_public env caller r
  serve_public (team_members r) = TeamMembers.serve_public env caller r

  unfoldable pub serve_admin : (r : Admin) → App (AdminReply r)
  serve_admin (projects r) = Projects.serve_admin env caller r
  serve_admin (technologies r) = Technologies.serve_admin env caller r
  serve_admin (services r) = Services.serve_admin env caller r
  serve_admin (articles r) = Articles.serve_admin env caller r
  serve_admin (case_studies r) = CaseStudies.serve_admin env caller r
  serve_admin (company r) = Company.serve_admin env caller r
  serve_admin (service_lines r) = ServiceLines.serve_admin env caller r
  serve_admin (clients r) = Clients.serve_admin env caller r
  serve_admin (partners r) = Partners.serve_admin env caller r
  serve_admin (testimonials r) = Testimonials.serve_admin env caller r
  serve_admin (products r) = Products.serve_admin env caller r
  serve_admin (team_members r) = TeamMembers.serve_admin env caller r

  unfoldable pub serve : (r : Request) → App (Reply r)
  unfolding serve_public serve_admin health_check
  serve health = health_check
  serve (public r) = serve_public r
  serve (admin r) = serve_admin r
  serve (login p) = Auth.login env caller p
  serve (logout p) = Auth.logout env caller p
  serve (refresh p) = Auth.refresh env caller p
  serve (contact p) = Contact.submit_contact_request env caller p

-- The world after some requests, one after the other, whatever each of them answers.
pub record Sent : Type 0 where
  pub caller : Caller
  pub request : Request

unfoldable pub serve_all : Env → List Sent → World → World
unfolding serve
serve_all env [] w = w
serve_all env (s ∷ sent) w = serve_all env sent (serve env s.caller s.request w).1
