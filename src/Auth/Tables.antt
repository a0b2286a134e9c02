-- ===== src/Auth/Tables.antt =====
-- Reading the session keeps whatever holds of the tables.
use ch_tech_landing_page_bac.Base.{Option, none, some}
use ch_tech_landing_page_bac.Text.{Str}
use ch_tech_landing_page_bac.Domain.Json.{Json, str}
use ch_tech_landing_page_bac.Models.{Db}
use ch_tech_landing_page_bac.App.{run_app}
use ch_tech_landing_page_bac.App.Outside.{Env}
use ch_tech_landing_page_bac.App.Tables.{Keeps, reads_rules}
use ch_tech_landing_page_bac.Auth.Security.{
  decode_access_token, get_current_user_id, refuse_invalid_token, subject_of,
}

module _ {P : Db → Type 0} (env : Env) where
  subject_of-Keeps : (sub : Option Json) → Keeps P (subject_of sub)
  subject_of-Keeps none = search reads_rules
  subject_of-Keeps (some (str s)) = search reads_rules
  subject_of-Keeps (some _) = search reads_rules

  decoded-Keeps :
      (token : Str)
      → Keeps P (λ w. (
        refuse_invalid_token (decode_access_token env token w).0,
        (decode_access_token env token w).1,
      ))
  unfolding decode_access_token run_app
  decoded-Keeps token = record { at = λ w h. h }

  pub get_current_user_id-Keeps : (bearer : Option Str) → Keeps P (get_current_user_id env bearer)
  unfolding get_current_user_id
  get_current_user_id-Keeps none = search reads_rules
  get_current_user_id-Keeps (some token) =
      search (reads_rules, decoded-Keeps, subject_of-Keeps) depth 10
