-- ===== src/Tests/Content.antt =====
-- The rate limit, the company profile, testimonials and case studies in the environment in memory.
use ch_tech_landing_page_bac.Base.{
  true, List, ◌≤◌, false, none, some, [], ◌∷◌, ◌≡◌, refl, All, length, arith, ltb, ◌+◌,
  if◌then◌else◌, ℕ, zero, suc,
}
use ch_tech_landing_page_bac.Errors.{ok, err, resource_not_found}
use ch_tech_landing_page_bac.Text.{text}
use ch_tech_landing_page_bac.Domain.Entities.{CaseStudy}
use ch_tech_landing_page_bac.Models.{Db, CaseStudyModel}
use ch_tech_landing_page_bac.Models.Constraints.{IsConsistent}
use ch_tech_landing_page_bac.App.{World, run_app}
use ch_tech_landing_page_bac.RateLimit.{
  check_rate_limit, redis_incr, redis_expire, redis_ttl, start_window, refuse,
}
use ch_tech_landing_page_bac.App.Outside.{Env, RedisLaws}
use ch_tech_landing_page_bac.RateLimit.Window.{passed, requests, requests-passed, requests-recover}
use ch_tech_landing_page_bac.Content.Company.{CompanyInput, update_company}
use ch_tech_landing_page_bac.Content.Company.Singleton.{update_company-length}
use ch_tech_landing_page_bac.Content.Testimonials.{
  TestimonialInput, create_testimonial, update_testimonial,
}
use ch_tech_landing_page_bac.Content.Testimonials.References.{testimonial-misses_client}
use ch_tech_landing_page_bac.Content.CaseStudies
use ch_tech_landing_page_bac.Content.CaseStudies.{get_case_study_by_id, all_case_studies}
use ch_tech_landing_page_bac.Content.CaseStudies.Privacy.{
  IsOfPublicProject, get_case_study_by_id-IsOfPublicProject, all_case_studies-IsOfPublicProject,
}
use ch_tech_landing_page_bac.Tests.Memory.{memory, memory_laws, memory_redis, checks_sound}
use ch_tech_landing_page_bac.Tests.Sessions.{empty_db}
use ch_tech_landing_page_bac.Tests.Catalogue.{site, secret}

abbrev of_site : CaseStudyModel
of_site = record {
  id = 1;
  project_id = 1;
  challenge = none;
  solution = none;
  architecture = none;
  lessons_learned = none;
  metrics = none;
  created_at = 0;
  updated_at = 0;
}

abbrev of_secret : CaseStudyModel
of_secret = record of_site { id = 2; project_id = 2 }

abbrev db : Db
db = record empty_db { projects = site ∷ secret ∷ []; case_studies = of_site ∷ of_secret ∷ [] }

abbrev world : World
world = record { db = db; redis = λ _. none; clock = 0; uuids = 0; secrets = 0 }

db-IsConsistent : IsConsistent memory.same_text memory.lower_text db
db-IsConsistent = checks_sound db refl

-- To run the use cases.
program : Unit {0}
unfolding run_app get_case_study_by_id all_case_studies CaseStudies.find_case_study
    CaseStudies.list_case_studies CaseStudies.to_case_study_entity
program = tt

abbrev shown : CaseStudy
shown = record {
  id = 1;
  project_id = 1;
  challenge = none;
  solution = none;
  architecture = none;
  lessons_learned = none;
  metrics = none;
  created_at = 0;
  updated_at = 0;
}

get_case_study_by_id-IsOfPublicProject_example : IsOfPublicProject memory db shown
unfolding program
get_case_study_by_id-IsOfPublicProject_example =
    get_case_study_by_id-IsOfPublicProject memory memory_laws 1 world shown db-IsConsistent refl

all_case_studies-IsOfPublicProject_example :
    (studies : List CaseStudy) × (all_case_studies memory true world ≡ (ok studies, world))
    × All (IsOfPublicProject memory db) studies
all_case_studies-IsOfPublicProject_example =
    all_case_studies-IsOfPublicProject memory memory_laws world

abbrev praise : TestimonialInput
praise = record {
  author_name = text "Ann";
  author_role = none;
  client_id = some 9;
  project_id = none;
  content = text "Good";
  rating = none;
  featured = false;
}

testimonial-misses_client_example :
    (create_testimonial memory praise world ≡ (err (resource_not_found "Client not found"), world))
    × (update_testimonial memory 4 praise world
        ≡ (err (resource_not_found "Client not found"), world))
testimonial-misses_client_example =
    testimonial-misses_client memory memory_laws 4 praise world db-IsConsistent refl

abbrev profile : CompanyInput
profile = record {
  legal_name = text "CH-TECH";
  display_name = text "CH-TECH";
  tagline = none;
  mission = none;
  vision = none;
  email = none;
  phone = none;
  address = none;
  social_links = none;
}

update_company-length_example : length (update_company memory profile world).1.db.companies ≤ 1
update_company-length_example = update_company-length memory memory_laws profile world (omega arith)

-- The eleventh message of an hour.
requests-passed_example :
    passed
      (check_rate_limit memory (text "k") 10 3600 (requests memory (text "k") 10 3600 10 world)).0
    ≡ ltb 10 10
requests-passed_example =
    requests-passed memory (text "k") 10 3600 memory_redis world refl refl 10
      (λ c le. ground (arith))

-- A clock that runs slowly at first, and is an hour later from its sixth reading on.
abbrev later_on : Env
later_on = record memory { clock_at = λ n. if ltb n 5 then n else 3_600_000_001 + n }

later_on_redis : RedisLaws later_on
later_on_redis = record { incr_put = λ t k keys. refl; expire_put = λ t k s n keys e. rw e }

in_window :
    (i : ℕ)
    → i ≤ 2
    → ltb (later_on.clock_at (requests later_on (text "k") 2 3600 i world).clock) 3_600_000_001
      ≡ true
unfolding run_app requests check_rate_limit redis_incr redis_expire redis_ttl start_window refuse
in_window zero le = refl
in_window (suc zero) le = refl
in_window (suc (suc zero)) le = refl
in_window (suc (suc (suc i))) le = absurd (omega (arith, le))

-- A limit of two an hour: the second request of the window passes, the third is refused, and the
-- fourth comes an hour later.
requests-recover_example :
    passed
      (check_rate_limit later_on (text "k") 2 3600 (requests later_on (text "k") 2 3600 3 world)).0
    ≡ true
unfolding run_app requests check_rate_limit redis_incr redis_expire redis_ttl start_window refuse
requests-recover_example =
    requests-recover later_on (text "k") 2 3600 later_on_redis world refl refl 2 in_window refl refl
