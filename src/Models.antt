-- ===== src/Models.antt =====
-- app/models: a row of each table, with the columns as stored, and the database. Foreign keys and
-- identifiers are the numbers of UUIDs. `created_at` and `updated_at` are those of
-- `TimestampMixin`, `id` is that of `UUIDPrimaryKeyMixin` (app/db/base.py).
pub mod Constraints
use ch_tech_landing_page_bac.Base.{ℕ, Bool, Option, List}
use ch_tech_landing_page_bac.Base.Int.{ℤ}
use ch_tech_landing_page_bac.Text.{Str}
use ch_tech_landing_page_bac.Domain.Json.{Json}
use ch_tech_landing_page_bac.Domain.Time.{Time}

abbrev pub Uuid : Type 0
Uuid = ℕ

-- A calendar date: its ordinal.
abbrev pub Date : Type 0
Date = ℕ

pub record UserModel : Type 0 where
  pub id : Uuid
  pub name : Str
  pub email : Str
  pub password_hash : Str
  pub role : Str
  pub is_active : Bool
  pub last_login : Option Time
  pub created_at : Time
  pub updated_at : Time

pub record RefreshTokenModel : Type 0 where
  pub id : Uuid
  pub user_id : Uuid
  pub token_hash : Str
  pub issued_at : Time
  pub expires_at : Time
  pub revoked_at : Option Time
  pub user_agent : Option Str
  pub ip_address : Option Str

pub record TechnologyModel : Type 0 where
  pub id : Uuid
  pub name : Str
  pub category : Option Str
  pub icon : Option Str
  pub official_url : Option Str
  pub created_at : Time
  pub updated_at : Time

pub record ProjectModel : Type 0 where
  pub id : Uuid
  pub slug : Str
  pub title : Str
  pub short_description : Option Str
  pub full_description : Option Str
  pub repository_url : Option Str
  pub live_demo_url : Option Str
  pub cover_image : Option Str
  pub status : Str
  pub visibility : Str
  pub featured : Bool
  pub started_at : Option Date
  pub finished_at : Option Date
  pub client_id : Option Uuid
  pub created_at : Time
  pub updated_at : Time

pub record ArticleModel : Type 0 where
  pub id : Uuid
  pub author_id : Uuid
  pub slug : Str
  pub title : Str
  pub summary : Option Str
  pub content : Str
  pub cover_image : Option Str
  pub reading_time : Option ℤ
  pub published : Bool
  pub published_at : Option Time
  pub created_at : Time
  pub updated_at : Time

pub record ServiceModel : Type 0 where
  pub id : Uuid
  pub title : Str
  pub slug : Str
  pub description : Option Str
  pub featured : Bool
  pub active : Bool
  pub service_line_id : Option Uuid
  pub created_at : Time
  pub updated_at : Time

pub record ServiceLineModel : Type 0 where
  pub id : Uuid
  pub slug : Str
  pub name : Str
  pub description : Option Str
  pub icon : Option Str
  pub display_order : ℤ
  pub created_at : Time
  pub updated_at : Time

pub record CaseStudyModel : Type 0 where
  pub id : Uuid
  pub project_id : Uuid
  pub challenge : Option Str
  pub solution : Option Str
  pub architecture : Option Str
  pub lessons_learned : Option Str
  pub metrics : Option Json
  pub created_at : Time
  pub updated_at : Time

pub record ClientModel : Type 0 where
  pub id : Uuid
  pub name : Str
  pub logo : Option Str
  pub industry : Option Str
  pub website_url : Option Str
  pub created_at : Time
  pub updated_at : Time

pub record PartnerModel : Type 0 where
  pub id : Uuid
  pub name : Str
  pub logo : Option Str
  pub partnership_type : Option Str
  pub website_url : Option Str
  pub created_at : Time
  pub updated_at : Time

pub record ProductModel : Type 0 where
  pub id : Uuid
  pub slug : Str
  pub name : Str
  pub short_description : Option Str
  pub full_description : Option Str
  pub status : Str
  pub url : Option Str
  pub logo : Option Str
  pub featured : Bool
  pub created_at : Time
  pub updated_at : Time

pub record TeamMemberModel : Type 0 where
  pub id : Uuid
  pub user_id : Option Uuid
  pub name : Str
  pub role : Str
  pub bio : Option Str
  pub photo : Option Str
  pub linkedin_url : Option Str
  pub github_url : Option Str
  pub display_order : ℤ
  pub active : Bool
  pub created_at : Time
  pub updated_at : Time

pub record TestimonialModel : Type 0 where
  pub id : Uuid
  pub author_name : Str
  pub author_role : Option Str
  pub client_id : Option Uuid
  pub project_id : Option Uuid
  pub content : Str
  pub rating : Option ℤ
  pub featured : Bool
  pub created_at : Time
  pub updated_at : Time

pub record CompanyModel : Type 0 where
  pub id : Uuid
  pub legal_name : Str
  pub display_name : Str
  pub tagline : Option Str
  pub mission : Option Str
  pub vision : Option Str
  pub email : Option Str
  pub phone : Option Str
  pub address : Option Str
  pub social_links : Option Json
  pub created_at : Time
  pub updated_at : Time

pub record ContactRequestModel : Type 0 where
  pub id : Uuid
  pub name : Str
  pub email : Str
  pub company : Option Str
  pub subject : Option Str
  pub message : Str
  pub interested_service_line_id : Option Uuid
  pub source : Option Str
  pub status : Str
  pub created_at : Time

-- A row of `project_technologies` or `article_technologies` (app/models/associations.py).
pub record Association : Type 0 where
  pub owner_id : Uuid
  pub technology_id : Uuid

-- The tables.
pub record Db : Type 0 where
  pub users : List UserModel
  pub refresh_tokens : List RefreshTokenModel
  pub technologies : List TechnologyModel
  pub projects : List ProjectModel
  pub project_technologies : List Association
  pub articles : List ArticleModel
  pub article_technologies : List Association
  pub services : List ServiceModel
  pub service_lines : List ServiceLineModel
  pub case_studies : List CaseStudyModel
  pub clients : List ClientModel
  pub testimonials : List TestimonialModel
  pub companies : List CompanyModel
  pub contact_requests : List ContactRequestModel
  pub partners : List PartnerModel
  pub products : List ProductModel
  pub team_members : List TeamMemberModel
