-- ===== src/Tests/Sessions.antt =====
-- Sessions run on the environment in memory.
use ch_tech_landing_page_bac.Base.{
  ◌+◌, suc, true, none, [], ◌∷◌, ◌≡◌, refl, arith, inr, not, filter,
}
use ch_tech_landing_page_bac.Errors.{ok, err, unauthorized}
use ch_tech_landing_page_bac.Text.{text}
use ch_tech_landing_page_bac.Domain.Time.{Time, days}
use ch_tech_landing_page_bac.Domain.ValueObjects.{make_email, normalize_email}
use ch_tech_landing_page_bac.Domain.Enums.{UserRole, user_role}
use ch_tech_landing_page_bac.Models.{Db, UserModel, RefreshTokenModel}
use ch_tech_landing_page_bac.Models.Constraints.{IsConsistent}
use ch_tech_landing_page_bac.App.{World, run_app}
use ch_tech_landing_page_bac.Auth.Tokens
use ch_tech_landing_page_bac.Auth.Tokens.{is_stale, purge_older_than}
use ch_tech_landing_page_bac.Auth.Purges.{purge_older_than-keeps}
use ch_tech_landing_page_bac.Auth.Users
use ch_tech_landing_page_bac.Auth.Security
use ch_tech_landing_page_bac.Auth.UseCases
use ch_tech_landing_page_bac.Auth.UseCases.{AuthTokens, refresh, login, logout}
use ch_tech_landing_page_bac.Auth.Users.{User}
use ch_tech_landing_page_bac.Auth.Logins.{login-refused}
use ch_tech_landing_page_bac.Auth.Rotation.Logouts.{logout-replay}
use ch_tech_landing_page_bac.Auth.Rotation.Replay.{call_login, run_calls, refused, refresh-replay}
use ch_tech_landing_page_bac.Tests.Memory.{memory, memory_laws, checks_sound}

abbrev start : Time
start = 86_400_000_000_000

abbrev pub admin : UserModel
admin = record {
  id = 1;
  name = text "Admin";
  email = text "a@b.c";
  password_hash = text "changeme";
  role = text "ADMIN";
  is_active = true;
  last_login = none;
  created_at = 0;
  updated_at = 0;
}

abbrev session : RefreshTokenModel
session = record {
  id = 2;
  user_id = 1;
  token_hash = 7 ∷ [];
  issued_at = 0;
  expires_at = start + days 7;
  revoked_at = none;
  user_agent = none;
  ip_address = none;
}

abbrev pub empty_db : Db
empty_db = record {
  users = [];
  refresh_tokens = [];
  technologies = [];
  projects = [];
  project_technologies = [];
  articles = [];
  article_technologies = [];
  services = [];
  service_lines = [];
  case_studies = [];
  clients = [];
  testimonials = [];
  companies = [];
  contact_requests = [];
  partners = [];
  products = [];
  team_members = [];
}

abbrev db : Db
db = record empty_db { users = admin ∷ []; refresh_tokens = session ∷ [] }

abbrev world : World
world = record { db = db; redis = λ _. none; clock = 0; uuids = 0; secrets = 0 }

-- To run the use cases.
program : Unit {0}
unfolding run_app refresh Tokens.revoke_if_active Tokens.create_token purge_older_than
    Tokens.delete_ids Users.get_by_id UseCases.issue_tokens UseCases.issue_refresh_token
    Security.create_access_token Security.generate_refresh_token Security.hash_refresh_token
    make_email user_role UseCases.active_user UseCases.logout UseCases.owned_token
    Tokens.get_by_token_hash Tokens.save Tokens.revoke login Users.get_by_email Users.to_entity
    UseCases.authenticate Security.verify_password normalize_email
program = tt

refreshed :
    (refresh memory (days 7) (7 ∷ []) none none world).0
    ≡ ok (record { access_token = (start + 900_000_002) ∷ 1 ∷ []; refresh_token = 1000 ∷ [] })
unfolding program
refreshed = refl

db-IsConsistent : IsConsistent memory.same_text memory.lower_text db
db-IsConsistent = checks_sound db refl

refresh-replay_example :
    (let w' =
        run_calls memory
          (call_login (days 7) (text "A@b.c") (text "changeme") none none ∷ [])
          (refresh memory (days 7) (7 ∷ []) none none world).1 in
      refresh memory (days 7) (7 ∷ []) none none w'
      ≡ (err (refused memory), record w' { clock = suc w'.clock }))
unfolding program
refresh-replay_example =
    refresh-replay memory memory_laws (days 7) (7 ∷ []) none none world _
      (call_login (days 7) (text "A@b.c") (text "changeme") none none ∷ []) (days 7) none none
      db-IsConsistent (λ n le. ground arith) refl

logout-replay_example :
    (let w' =
        run_calls memory
          (call_login (days 7) (text "A@b.c") (text "changeme") none none ∷ [])
          (logout memory (7 ∷ []) 1 world).1 in
      refresh memory (days 7) (7 ∷ []) none none w'
      ≡ (err (refused memory), record w' { clock = suc w'.clock }))
unfolding program
logout-replay_example =
    logout-replay memory memory_laws (7 ∷ []) 1 world
      (call_login (days 7) (text "A@b.c") (text "changeme") none none ∷ []) (days 7) none none
      db-IsConsistent (λ n le. ground arith) refl

abbrev signed_in : User
signed_in = record {
  id = 1;
  name = text "Admin";
  email = record { value = text "a@b.c" };
  password_hash = text "changeme";
  role = UserRole.admin;
  is_active = true;
  last_login = none;
  created_at = 0;
  updated_at = 0;
}

login-refused_example :
    login memory (days 7) (text "A@b.c") (text "wrong") none none world
    ≡ (err (unauthorized "Invalid email or password"), world)
unfolding program
login-refused_example =
    login-refused memory memory_laws (days 7) (text "A@b.c") (text "wrong") none none world
      db-IsConsistent (signed_in, refl, inr refl)

purge_older_than-keeps_example :
    (purge_older_than memory (start + days 8) world).1.db.refresh_tokens
    ≡ filter (λ m. not (is_stale (start + days 8) m)) db.refresh_tokens
unfolding program
purge_older_than-keeps_example =
    purge_older_than-keeps memory memory_laws (start + days 8) world 1 db-IsConsistent refl
