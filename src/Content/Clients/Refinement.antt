-- ===== src/Content/Clients/Refinement.antt =====
-- The writes of the repository of the clients and what `get_by_id` answers after them.
use ch_tech_landing_page_bac.Base.{List, [], ◌∷◌, ◌≡◌, ◌∙◌, refl, sym, ap}
use ch_tech_landing_page_bac.Errors.{Result, ok, err}
use ch_tech_landing_page_bac.Models.{Uuid}
use ch_tech_landing_page_bac.Models.Constraints.{IsConsistent}
use ch_tech_landing_page_bac.App.{World, ◌>>=◌, pure, run_app}
use ch_tech_landing_page_bac.App.Outside.{Env, SqlLaws}
use ch_tech_landing_page_bac.App.Returns.{bind-ok}
use ch_tech_landing_page_bac.Content.Clients.{
  find_client, create_client, update_client, delete_client,
}
use ch_tech_landing_page_bac.App.Tables.{Keeps, writes_rules}
use ch_tech_landing_page_bac.Content.Tables.Clients.{clients_rules}
use ch_tech_landing_page_bac.Content.Clients.Store.{
  Write, create, update, delete, Event, stored, removed, Store, apply, replay, exec, run, view,
  create_client-view,
}
use ch_tech_landing_page_bac.Content.Clients.Writes.{
  select_client, update_client-view, delete_client-view,
}

abbrev event_or : Event → Result Event → Event
event_or ev (ok e) = e
event_or ev (err e) = ev

abbrev events_or : List Event → Result (List Event) → List Event
events_or evs (ok es) = es
events_or evs (err e) = evs

apply-ext :
    (ev : Event) (s t : Store) (k : Uuid) → ((j : Uuid) → s j ≡ t j) → apply ev s k ≡ apply ev t k
apply-ext (stored c) s t k h = rw (h k) refl
apply-ext (removed j) s t k h = rw (h k) refl

replay-ext :
    (evs : List Event) (s t : Store) (k : Uuid)
    → ((j : Uuid) → s j ≡ t j)
    → replay evs s k ≡ replay evs t k
replay-ext [] s t k h = h k
replay-ext (ev ∷ evs) s t k h =
    replay-ext evs (apply ev s) (apply ev t) k (λ j. apply-ext ev s t j h)

module _ (env : Env) where
  -- A write that ends with what it reports.
  reported :
      {A : Type 0} (r : Result A × World) (r' : Result Event × World) (w w' : World) (k : Uuid)
      (a : A) (ev ev' : Event)
      → r' ≡ (ok ev', w')
      → r ≡ (ok a, w')
      → ok ev' ≡ ok ev
      → view env r.1.db k ≡ apply ev' (view env w.db) k
      → view env r'.1.db k ≡ apply ev (view env w.db) k
  reported r r' w w' k a ev ev' same ran h v =
      ap (λ r. view env r.1.db k) same
      ∙ (ap (λ r. view env r.1.db k) (sym ran)
          ∙ (v ∙ ap (λ e. apply (event_or ev e) (view env w.db) k) h))

  module _ (laws : SqlLaws env) where
    -- One write that returns.
    exec-view :
        (c : Write) (w : World) (ev : Event) (k : Uuid)
        → IsConsistent env.same_text env.lower_text w.db
        → (exec env c w).0 ≡ ok ev
        → view env (exec env c w).1.db k ≡ apply ev (view env w.db) k
    unfolding exec pure
    exec-view (create input) w ev k consistent e =
        let (c, w', ran, same, h) =
          bind-ok (create_client env input) (λ c. pure (stored c)) ev w e in
        reported _ _ w w' k c ev (stored c) same ran h
          (create_client-view env input w c k (ap (λ r. r.0) ran))
    exec-view (update j input) w ev k consistent e =
        let (c, w', ran, same, h) =
          bind-ok (update_client env j input) (λ c. pure (stored c)) ev w e in
        reported _ _ w w' k c ev (stored c) same ran h
          (update_client-view env laws input w c j k consistent (ap (λ r. r.0) ran))
    exec-view (delete j) w ev k consistent e =
        let (u, w', ran, same, h) = bind-ok (delete_client env j) (λ _. pure (removed j)) ev w e in
        reported _ _ w w' k u ev (removed j) same ran h
          (delete_client-view env laws w j k consistent (ap (λ r. r.0) ran))

    find_client-view :
        (w : World) (k : Uuid)
        → IsConsistent env.same_text env.lower_text w.db
        → (find_client env k w).0 ≡ view env w.db k
    unfolding find_client run_app
    find_client-view w k consistent = rw (select_client env laws k w.db consistent) refl

    exec-Keeps : (c : Write) → Keeps (IsConsistent env.same_text env.lower_text) (exec env c)
    unfolding exec
    exec-Keeps (create input) = search (writes_rules, clients_rules, laws.accepts_sound)
    exec-Keeps (update j input) = search (writes_rules, clients_rules, laws.accepts_sound)
    exec-Keeps (delete j) = search (writes_rules, clients_rules, laws.accepts_sound)

    run-Keeps :
        (writes : List Write) → Keeps (IsConsistent env.same_text env.lower_text) (run env writes)
    unfolding run
    run-Keeps [] = search writes_rules
    run-Keeps (c ∷ writes) = search (writes_rules, exec-Keeps c, run-Keeps writes)

    run-view :
        (writes : List Write) (w : World) (events : List Event) (k : Uuid)
        → IsConsistent env.same_text env.lower_text w.db
        → (run env writes w).0 ≡ ok events
        → view env (run env writes w).1.db k ≡ replay events (view env w.db) k
    unfolding run pure
    run-view [] w events k consistent e = ap (λ es. replay (events_or [] es) (view env w.db) k) e
    run-view (c ∷ writes) w events k consistent e =
        let (ev, w1, ran, same, h) =
          bind-ok (exec env c) (λ ev. run env writes >>= λ evs. pure (ev ∷ evs)) events w e in
        let (evs, w2, ran', same', h') =
          bind-ok (run env writes) (λ evs. pure (ev ∷ evs)) events w1 h in
        let consistent' : IsConsistent env.same_text env.lower_text w1.db =
          rw (ap (λ r. r.1.db) ran) at ((exec-Keeps c).at w consistent) in
        let rest = run-view writes w1 evs k consistent' (ap (λ r. r.0) ran') in
        ap (λ r. view env r.1.db k) (same ∙ same')
        ∙ (ap (λ r. view env r.1.db k) (sym ran')
            ∙ (rest
                ∙ (replay-ext evs (view env w1.db) (apply ev (view env w.db)) k (λ j.
                      ap (λ r. view env r.1.db j) (sym ran)
                      ∙ exec-view c w ev j consistent (ap (λ r. r.0) ran))
                    ∙ ap (λ es. replay (events_or [] es) (view env w.db) k) h')))

    -- The repository of the clients is a map from identifiers to entities. After any creations,
    -- updates and deletions that all return, one after the other, `get_by_id` answers for each
    -- identifier what the map holds that starts as `get_by_id` answered before and takes the entities
    -- that were returned and drops the identifiers that were deleted, if the tables are consistent.
    pub run-replay :
        (writes : List Write) (w : World) (events : List Event) (k : Uuid)
        → IsConsistent env.same_text env.lower_text w.db
        → (run env writes w).0 ≡ ok events
        → (find_client env k (run env writes w).1).0
          ≡ replay events (λ j. (find_client env j w).0) k
    run-replay writes w events k consistent e =
        find_client-view (run env writes w).1 k ((run-Keeps writes).at w consistent)
        ∙ (run-view writes w events k consistent e
            ∙ replay-ext events (view env w.db) (λ j. (find_client env j w).0) k
                (λ j. sym (find_client-view w j consistent)))
