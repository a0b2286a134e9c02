-- ===== src/Content/Clients/Writes.antt =====
-- Updating and deleting a client, as changes of the map.
use ch_tech_landing_page_bac.Base.{
  Bool, Option, none, some, ◌≡◌, ◌∙◌, refl, sym, ap, ◌==◌, find, Bool-cases, inl, inr, find-holds,
  eqb→eq,
}
use ch_tech_landing_page_bac.Base.Keys.{delete_where}
use ch_tech_landing_page_bac.Base.Stores.{find-update_where, find-delete_where}
use ch_tech_landing_page_bac.Errors.{ok, optional, resource_not_found, conflict}
use ch_tech_landing_page_bac.Domain.Entities.{Client}
use ch_tech_landing_page_bac.Models.{Uuid, ClientModel, Db}
use ch_tech_landing_page_bac.Models.Constraints.{IsConsistent}
use ch_tech_landing_page_bac.App.{
  App, World, ◌>>=◌, lift, get_db, or_raise, run_app, on_integrity-refusal,
}
use ch_tech_landing_page_bac.App.Outside.{Env, SqlLaws}
use ch_tech_landing_page_bac.App.Rows.{select_id, unless_raise}
use ch_tech_landing_page_bac.App.Returns.{bind-ok, found-ok, optional-ok, committed}
use ch_tech_landing_page_bac.Content.Clients.{
  ClientInput, client_id_is, to_client_entity, change_client, save_client, drop_client,
  remove_client, update_client, delete_client,
}
use ch_tech_landing_page_bac.Content.Clients.Store.{
  stored, removed, apply, view, view-stored, changed_row, changed_db, ticked, change_client_lem,
}

module _ (env : Env) where
  abbrev or_not_found : Option Client → App Client
  or_not_found found = or_raise found (resource_not_found "Client not found")

  abbrev or_undeleted : Bool → App (Unit {0})
  or_undeleted deleted = unless_raise deleted (resource_not_found "Client not found")

  module _ (laws : SqlLaws env) where
    pub select_client :
        (j : Uuid) (db : Db)
        → IsConsistent env.same_text env.lower_text db
        → env.select_one (client_id_is j) db.clients ≡ ok (find (client_id_is j) db.clients)
    select_client j db c = select_id env laws (λ (m : ClientModel). m.id) j db.clients c.client_ids

    -- `update` once it has found the row.
    change_client-view :
        (input : ClientInput) (w : World) (c : Client) (m : ClientModel) (k : Uuid)
        → find (client_id_is m.id) w.db.clients ≡ some m
        → ((change_client env (some m) input >>= or_not_found) w).0 ≡ ok c
        → view env ((change_client env (some m) input >>= or_not_found) w).1.db k
          ≡ apply (stored c) (view env w.db) k
    change_client-view input w c m k found e =
        let (o, w', ran, same, h) = bind-ok (change_client env (some m) input) or_not_found c w e in
        let (is_c, ended) = found-ok o (resource_not_found "Client not found") c w' h in
        let run = change_client_lem env input w m in
        let read = optional (to_client_entity env) (some (changed_row env input w m)) in
        let done =
          committed env (changed_db env input w m) read o (ticked env input w m)
            (ap (λ r. r.0) (sym run ∙ ran)) in
        let made : read ≡ ok (some c) =
          ap (λ r. r.0) (sym (run ∙ done)) ∙ (ap (λ r. r.0) ran ∙ ap ok is_c) in
        let after : w' ≡ record (ticked env input w m) { db = changed_db env input w m } =
          ap (λ r. r.1) (sym ran ∙ (run ∙ done)) in
        ap (λ r. view env r.1.db k) (same ∙ ended)
        ∙ (ap (λ w''. view env w''.db k) after
            ∙ view-stored env (changed_row env input w m) c w.db (changed_db env input w m) k
                (optional-ok (to_client_entity env) (changed_row env input w m) c made)
                (find-update_where (λ (r : ClientModel). r.id) (changed_row env input w m) m k
                  w.db.clients refl found))

    update_client_lem :
        (input : ClientInput) (w : World) (j : Uuid)
        → IsConsistent env.same_text env.lower_text w.db
        → update_client env j input w
          ≡ (change_client env (find (client_id_is j) w.db.clients) input >>= or_not_found) w
    unfolding update_client save_client ◌>>=◌ get_db lift
    update_client_lem input w j consistent = rw (select_client j w.db consistent) refl

    delete_client_lem :
        (w : World) (j : Uuid)
        → IsConsistent env.same_text env.lower_text w.db
        → delete_client env j w
          ≡ (drop_client env (find (client_id_is j) w.db.clients) >>= or_undeleted) w
    unfolding delete_client remove_client ◌>>=◌ get_db lift
    delete_client_lem w j consistent = rw (select_client j w.db consistent) refl

    missing_client :
        {B : Type 0} (input : ClientInput) (w : World) (c : Client)
        → ((change_client env none input >>= or_not_found) w).0 ≡ ok c
        → B
    unfolding change_client run_app
    missing_client input w c h = absurd (cc)

    pub update_client-view :
        (input : ClientInput) (w : World) (c : Client) (j k : Uuid)
        → IsConsistent env.same_text env.lower_text w.db
        → (update_client env j input w).0 ≡ ok c
        → view env (update_client env j input w).1.db k ≡ apply (stored c) (view env w.db) k
    update_client-view input w c j k consistent e =
        ap (λ r. view env r.1.db k) same
        ∙ by_found (find (client_id_is j) w.db.clients) refl (ap (λ r. r.0) (sym same) ∙ e)
      where
        same :
            update_client env j input w
            ≡ (change_client env (find (client_id_is j) w.db.clients) input >>= or_not_found) w
        same = update_client_lem input w j consistent

        by_found :
            (o : Option ClientModel)
            → find (client_id_is j) w.db.clients ≡ o
            → ((change_client env o input >>= or_not_found) w).0 ≡ ok c
            → view env ((change_client env o input >>= or_not_found) w).1.db k
              ≡ apply (stored c) (view env w.db) k
        by_found none f h = missing_client input w c h
        by_found (some m) f h =
            let is_j : j ≡ m.id =
              sym (eqb→eq m.id j (find-holds (client_id_is j) w.db.clients m f)) in
            change_client-view input w c m k
              (ap (λ i. find (client_id_is i) w.db.clients) (sym is_j) ∙ f) h

    view-removed :
        (db : Db) (j k : Uuid)
        → view env (record db { clients = delete_where (client_id_is j) db.clients }) k
          ≡ apply (removed j) (view env db) k
    view-removed db j k =
        let gone = find-delete_where (λ (r : ClientModel). r.id) j k db.clients in
        elim (Bool-cases (j == k)) [ inl y ↦ rw (gone, y) refl | inr n ↦ rw (gone, n) refl ]

    -- `delete` once it has looked for the row.
    drop_client-view :
        (w : World) (o : Option ClientModel) (j k : Uuid)
        → find (client_id_is j) w.db.clients ≡ o
        → ((drop_client env o >>= or_undeleted) w).0 ≡ ok tt
        → view env ((drop_client env o >>= or_undeleted) w).1.db k
          ≡ apply (removed j) (view env w.db) k
    unfolding drop_client run_app
    drop_client-view w none j k f e = absurd (cc)
    drop_client-view w (some m) j k f e =
        let is_j : m.id ≡ j = eqb→eq m.id j (find-holds (client_id_is j) w.db.clients m f) in
        let after = record w.db { clients = delete_where (client_id_is m.id) w.db.clients } in
        elim (Bool-cases (env.accepts after)) [
          | inl good ↦
              rw good
                (view-removed w.db m.id k ∙ ap (λ i. apply (removed i) (view env w.db) k) is_j)
          | inr bad ↦ absurd (
              let e' =
                rw
                  (
                    bad,
                    on_integrity-refusal env after
                        (conflict "Client is referenced by an existing project or testimonial") w,
                  )
                  at e in
              cc)
        ]

    pub delete_client-view :
        (w : World) (j k : Uuid)
        → IsConsistent env.same_text env.lower_text w.db
        → (delete_client env j w).0 ≡ ok tt
        → view env (delete_client env j w).1.db k ≡ apply (removed j) (view env w.db) k
    delete_client-view w j k consistent e =
        let same = delete_client_lem w j consistent in
        ap (λ r. view env r.1.db k) same
        ∙ drop_client-view w (find (client_id_is j) w.db.clients) j k refl
            (ap (λ r. r.0) (sym same) ∙ e)
