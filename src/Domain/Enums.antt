-- ===== src/Domain/Enums.antt =====
-- app/domain/enums.py, which app/models repeats: each enumeration with `value` and the constructor
-- from a text, which raises `ValueError` on another text.
use ch_tech_landing_page_bac.Base.{if◌then◌else◌}
use ch_tech_landing_page_bac.Errors.{Result, ok, err, value_error}
use ch_tech_landing_page_bac.Text.{Str, text, str_eq}

pub data ProjectStatus : Type 0 where
  planning in_progress completed archived : ProjectStatus

pub data Visibility : Type 0 where
  public private : Visibility

pub data ContactStatus : Type 0 where
  new read replied archived : ContactStatus

pub data UserRole : Type 0 where
  admin : UserRole

pub data ProductStatus : Type 0 where
  waitlist beta live : ProductStatus

abbrev pub project_status_value : ProjectStatus → Str
project_status_value planning = text "PLANNING"
project_status_value in_progress = text "IN_PROGRESS"
project_status_value completed = text "COMPLETED"
project_status_value ProjectStatus.archived = text "ARCHIVED"

abbrev pub visibility_value : Visibility → Str
visibility_value public = text "PUBLIC"
visibility_value private = text "PRIVATE"

abbrev pub contact_status_value : ContactStatus → Str
contact_status_value new = text "NEW"
contact_status_value read = text "READ"
contact_status_value replied = text "REPLIED"
contact_status_value ContactStatus.archived = text "ARCHIVED"

abbrev pub user_role_value : UserRole → Str
user_role_value admin = text "ADMIN"

abbrev pub product_status_value : ProductStatus → Str
product_status_value waitlist = text "WAITLIST"
product_status_value beta = text "BETA"
product_status_value live = text "LIVE"

-- `ProjectStatus(s)`
unfoldable pub project_status : Str → Result ProjectStatus
project_status s =
    if str_eq s (text "PLANNING")
    then ok planning
    else if str_eq s (text "IN_PROGRESS")
    then ok in_progress
    else if str_eq s (text "COMPLETED")
    then ok completed
    else if str_eq s (text "ARCHIVED")
    then ok ProjectStatus.archived
    else err value_error

-- `Visibility(s)`
unfoldable pub visibility : Str → Result Visibility
visibility s =
    if str_eq s (text "PUBLIC")
    then ok public
    else if str_eq s (text "PRIVATE")
    then ok private
    else err value_error

-- `ContactStatus(s)`
unfoldable pub contact_status : Str → Result ContactStatus
contact_status s =
    if str_eq s (text "NEW")
    then ok new
    else if str_eq s (text "READ")
    then ok read
    else if str_eq s (text "REPLIED")
    then ok replied
    else if str_eq s (text "ARCHIVED")
    then ok ContactStatus.archived
    else err value_error

-- `UserRole(s)`
unfoldable pub user_role : Str → Result UserRole
user_role s = if str_eq s (text "ADMIN") then ok admin else err value_error

-- `ProductStatus(s)`
unfoldable pub product_status : Str → Result ProductStatus
product_status s =
    if str_eq s (text "WAITLIST")
    then ok waitlist
    else if str_eq s (text "BETA")
    then ok beta
    else if str_eq s (text "LIVE")
    then ok live
    else err value_error
