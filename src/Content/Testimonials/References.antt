-- ===== src/Content/Testimonials/References.antt =====
-- What a testimonial may refer to.
use ch_tech_landing_page_bac.Base.{Bool, true, false, Option, none, some, ◌≡◌, refl, find, is_none}
use ch_tech_landing_page_bac.Errors.{err, resource_not_found}
use ch_tech_landing_page_bac.Models.{Uuid, ClientModel, Db}
use ch_tech_landing_page_bac.Models.Constraints.{IsConsistent}
use ch_tech_landing_page_bac.App.{World, run_app}
use ch_tech_landing_page_bac.App.Outside.{Env, SqlLaws}
use ch_tech_landing_page_bac.App.Rows.{select_id}
use ch_tech_landing_page_bac.Content.Clients.{find_client, client_id_is}
use ch_tech_landing_page_bac.Content.Testimonials.{
  TestimonialInput, check_client, validate_references, create_testimonial, update_testimonial,
}

-- A client is named that does not exist.
abbrev pub misses_client : Option Uuid → Db → Bool
misses_client none db = false
misses_client (some k) db = is_none (find (client_id_is k) db.clients)

is_none→none : {A : Type 0} (o : Option A) → is_none o ≡ true → o ≡ none
is_none→none none h = refl
is_none→none (some a) h = absurd (cc)

module _ (env : Env) (laws : SqlLaws env) where
  check_client-misses :
      (k : Option Uuid) (w : World)
      → IsConsistent env.same_text env.lower_text w.db
      → misses_client k w.db ≡ true
      → check_client env k w ≡ (err (resource_not_found "Client not found"), w)
  unfolding check_client find_client run_app
  check_client-misses none w c h = absurd (cc)
  check_client-misses (some k) w c h = rw (
    select_id env laws (λ (m : ClientModel). m.id) k w.db.clients c.client_ids,
    is_none→none (find (client_id_is k) w.db.clients) h,
  )

  -- A testimonial that names a client that does not exist is neither created nor changed: both
  -- calls raise 404 before anything is written, even if the testimonial does not exist. The
  -- database is consistent.
  pub testimonial-misses_client :
      (k : Uuid) (input : TestimonialInput) (w : World)
      → IsConsistent env.same_text env.lower_text w.db
      → misses_client input.client_id w.db ≡ true
      → (create_testimonial env input w ≡ (err (resource_not_found "Client not found"), w))
        × (update_testimonial env k input w ≡ (err (resource_not_found "Client not found"), w))
  unfolding create_testimonial update_testimonial validate_references run_app
  testimonial-misses_client k input w c h =
      rw (check_client-misses input.client_id w c h) (refl, refl)
