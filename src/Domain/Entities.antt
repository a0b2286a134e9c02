-- ===== src/Domain/Entities.antt =====
-- The entities of app/domain, one record for each class. `User` and `RefreshToken` stand with the
-- sessions. An entity holds value objects where its table holds texts.
use ch_tech_landing_page_bac.Base.{Bool, ◌&&◌, Option, is_none, if◌then◌else◌}
use ch_tech_landing_page_bac.Base.Int.{ℤ}
use ch_tech_landing_page_bac.Errors.{Result, ok, err, value_error}
use ch_tech_landing_page_bac.Text.{Str}
use ch_tech_landing_page_bac.Domain.Enums.{ProjectStatus, Visibility, ContactStatus, ProductStatus}
use ch_tech_landing_page_bac.Domain.Json.{Json}
use ch_tech_landing_page_bac.Domain.Time.{Time}
use ch_tech_landing_page_bac.Domain.ValueObjects.{Email, Slug, Url, Image, MarkdownContent}
use ch_tech_landing_page_bac.Models.{Uuid, Date}

pub record Technology : Type 0 where
  pub id : Uuid
  pub name : Str
  pub category : Option Str
  pub icon : Option Image
  pub official_url : Option Url
  pub created_at : Time
  pub updated_at : Time

pub record Project : Type 0 where
  pub id : Uuid
  pub slug : Slug
  pub title : Str
  pub short_description : Option Str
  pub full_description : Option Str
  pub repository_url : Option Url
  pub live_demo_url : Option Url
  pub cover_image : Option Image
  pub status : ProjectStatus
  pub visibility : Visibility
  pub featured : Bool
  pub client_id : Option Uuid
  pub started_at : Option Date
  pub finished_at : Option Date
  pub created_at : Time
  pub updated_at : Time

pub record Article : Type 0 where
  pub id : Uuid
  pub author_id : Uuid
  pub slug : Slug
  pub title : Str
  pub summary : Option Str
  pub content : MarkdownContent
  pub cover_image : Option Image
  pub reading_time : Option ℤ
  pub published : Bool
  pub published_at : Option Time
  pub created_at : Time
  pub updated_at : Time

-- `Article.__post_init__`
unfoldable pub make_article : Article → Result Article
make_article a = if a.published && is_none a.published_at then err value_error else ok a

pub record Client : Type 0 where
  pub id : Uuid
  pub name : Str
  pub logo : Option Image
  pub industry : Option Str
  pub website_url : Option Url
  pub created_at : Time
  pub updated_at : Time

pub record Partner : Type 0 where
  pub id : Uuid
  pub name : Str
  pub logo : Option Image
  pub partnership_type : Option Str
  pub website_url : Option Url
  pub created_at : Time
  pub updated_at : Time

pub record Product : Type 0 where
  pub id : Uuid
  pub slug : Slug
  pub name : Str
  pub short_description : Option Str
  pub full_description : Option Str
  pub status : ProductStatus
  pub url : Option Url
  pub logo : Option Image
  pub featured : Bool
  pub created_at : Time
  pub updated_at : Time

pub record TeamMember : Type 0 where
  pub id : Uuid
  pub user_id : Option Uuid
  pub name : Str
  pub role : Str
  pub bio : Option Str
  pub photo : Option Image
  pub linkedin_url : Option Url
  pub github_url : Option Url
  pub display_order : ℤ
  pub active : Bool
  pub created_at : Time
  pub updated_at : Time

pub record Testimonial : Type 0 where
  pub id : Uuid
  pub author_name : Str
  pub author_role : Option Str
  pub client_id : Option Uuid
  pub project_id : Option Uuid
  pub content : Str
  pub rating : Option ℤ
  pub featured : Bool
  pub created_at : Time
  pub updated_at : Time

pub record CaseStudy : Type 0 where
  pub id : Uuid
  pub project_id : Uuid
  pub challenge : Option Str
  pub solution : Option Str
  pub architecture : Option Str
  pub lessons_learned : Option Str
  pub metrics : Option Json
  pub created_at : Time
  pub updated_at : Time

pub record Service : Type 0 where
  pub id : Uuid
  pub service_line_id : Option Uuid
  pub title : Str
  pub slug : Slug
  pub description : Option Str
  pub featured : Bool
  pub active : Bool
  pub created_at : Time
  pub updated_at : Time

pub record ServiceLine : Type 0 where
  pub id : Uuid
  pub slug : Slug
  pub name : Str
  pub description : Option Str
  pub icon : Option Image
  pub display_order : ℤ
  pub created_at : Time
  pub updated_at : Time

pub record Company : Type 0 where
  pub id : Uuid
  pub legal_name : Str
  pub display_name : Str
  pub tagline : Option Str
  pub mission : Option Str
  pub vision : Option Str
  pub email : Option Email
  pub phone : Option Str
  pub address : Option Str
  pub social_links : Option Json
  pub created_at : Time
  pub updated_at : Time

pub record ContactRequest : Type 0 where
  pub id : Uuid
  pub name : Str
  pub email : Email
  pub company : Option Str
  pub subject : Option Str
  pub message : Str
  pub interested_service_line_id : Option Uuid
  pub source : Option Str
  pub status : ContactStatus
  pub created_at : Time
