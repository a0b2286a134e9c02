-- ===== src/Tests/Seed.antt =====
-- The seed in the environment in memory, run twice.
use ch_tech_landing_page_bac.Base.{none, ◌≡◌, refl}
use ch_tech_landing_page_bac.Errors.{ok}
use ch_tech_landing_page_bac.Text.{strip, lower}
use ch_tech_landing_page_bac.Domain.ValueObjects.{normalize_email}
use ch_tech_landing_page_bac.App.{World, run_app}
use ch_tech_landing_page_bac.Auth.Security.{hash_password}
use ch_tech_landing_page_bac.Content.Company.{first_company}
use ch_tech_landing_page_bac.Seed.{
  send_pending, add_admin_user, seed_admin_user, add_technology, seed_technologies, add_company,
  seed_company, add_founder, seed_team, commit_session, seed,
}
use ch_tech_landing_page_bac.Seed.Idempotence.{seed-seed}
use ch_tech_landing_page_bac.Tests.Memory.{memory, memory_laws, checks_sound}
use ch_tech_landing_page_bac.Tests.Sessions.{empty_db}

abbrev empty : World
empty = record { db = empty_db; redis = λ _. none; clock = 0; uuids = 0; secrets = 0 }

-- To run the seed.
program : Unit {0}
unfolding run_app hash_password first_company send_pending add_admin_user seed_admin_user
    add_technology seed_technologies add_company seed_company add_founder seed_team commit_session
    seed normalize_email strip lower
program = tt

seed-seed_example : seed memory (seed memory empty).1 ≡ (ok tt, (seed memory empty).1)
unfolding program
seed-seed_example = seed-seed memory memory_laws empty (checks_sound empty_db refl) refl
