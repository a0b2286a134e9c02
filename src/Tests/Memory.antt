-- ===== src/Tests/Memory.antt =====
-- A concrete environment: one that meets every assumption on the code outside the repository.
use ch_tech_landing_page_bac.Base.{
  ℕ, zero, suc, ◌+◌, Bool, true, false, ◌&&◌, ◌||◌, not, Option, none, some, List, [], ◌∷◌, ◌≡◌,
  ◌⊎◌, inl, inr, refl, arith, ◌==◌, leb, ltb, is_none, filter, all, to_list, All, if◌then◌else◌,
  Bool-cases,
}
use ch_tech_landing_page_bac.Base.Keys.{Distinct}
use ch_tech_landing_page_bac.Errors.{
  Result, ok, err, value_error, invalid_token_error, multiple_results_found,
}
use ch_tech_landing_page_bac.Text.{Str, Unicode, text, str_eq}
use ch_tech_landing_page_bac.Domain.Json.{Json, str}
use ch_tech_landing_page_bac.Models.{
  Db, UserModel, ProjectModel, ClientModel, ArticleModel, ServiceLineModel,
}
use ch_tech_landing_page_bac.Models.Constraints.{
  IsConsistent, refers, may_refer, rating_in_range, same_pair, is_in, links, user_roles,
  project_states, visibilities, product_states, contact_states,
}
use ch_tech_landing_page_bac.App.Outside.{
  Env, Keyspace, Settings, SqlLaws, RedisLaws, IsSorted, slice, live_count, live_deadline, put,
  seconds,
}
use ch_tech_landing_page_bac.Base.Int.{pos}
use ch_tech_landing_page_bac.Text.Laws.{str_eq_refl, str_eq→eq}
use mathlib.Core.List.{Perm}
use mathlib.Core.List.Perm

module _ {A : Type 0} where
  abbrev distinct : (A → A → Bool) → List A → Bool
  distinct same [] = true
  distinct same (x ∷ xs) = all (λ y. not (same x y)) xs && distinct same xs

  all-not :
      (same : A → A → Bool) (x : A) (xs : List A)
      → all (λ y. not (same x y)) xs ≡ true
      → All (λ y. same x y ≡ false) xs
  all-not same x [] h = tt
  all-not same x (y ∷ xs) h = (ground arith, all-not same x xs (ground arith))

  distinct_sound : (same : A → A → Bool) (xs : List A) → distinct same xs ≡ true → Distinct same xs
  distinct_sound same [] h = tt
  distinct_sound same (x ∷ xs) h =
      (all-not same x xs (ground arith), distinct_sound same xs (ground arith))

  abbrev insert_by : (A → A → Bool) → A → List A → List A
  insert_by le x [] = x ∷ []
  insert_by le x (y ∷ ys) = if le x y then x ∷ y ∷ ys else y ∷ insert_by le x ys

  abbrev sort_by : (A → A → Bool) → List A → List A
  sort_by le [] = []
  sort_by le (x ∷ xs) = insert_by le x (sort_by le xs)

  abbrev only : List A → Result (Option A)
  only [] = ok none
  only (x ∷ []) = ok (some x)
  only (x ∷ y ∷ more) = err multiple_results_found

  insert_by-perm : (le : A → A → Bool) (x : A) (ys : List A) → Perm (insert_by le x ys) (x ∷ ys)
  insert_by-perm le x [] = Perm.refl _
  insert_by-perm le x (y ∷ ys) = elim (Bool-cases (le x y)) [
    | inl e ↦ rw e (Perm.refl _)
    | inr e ↦ rw e (Perm.trans (Perm.cons y (insert_by-perm le x ys)) (Perm.swap x y ys))
  ]

  sort_by-perm : (le : A → A → Bool) (xs : List A) → Perm (sort_by le xs) xs
  sort_by-perm le [] = Perm.refl _
  sort_by-perm le (x ∷ xs) =
      Perm.trans (insert_by-perm le x (sort_by le xs)) (Perm.cons x (sort_by-perm le xs))

  module _ (le : A → A → Bool) (total : (a b : A) → (le a b ≡ true) ⊎ (le b a ≡ true)) where
    insert_by-IsSorted : (x : A) (ys : List A) → IsSorted le ys → IsSorted le (insert_by le x ys)
    insert_by-IsSorted x [] s = tt
    insert_by-IsSorted x (y ∷ []) s = elim (Bool-cases (le x y)) [
      | inl e ↦ rw e (e, tt)
      | inr e ↦ rw e (ground (arith, total x y), tt)
    ]
    insert_by-IsSorted x (y ∷ z ∷ ys) (d, s) = elim (Bool-cases (le x y)) [
      | inl e ↦ rw e (e, (d, s))
      | inr e ↦
          rw e (after (le x z) refl (insert_by-IsSorted x (z ∷ ys) s) (ground (arith, total x y)))
    ]
      where
        after :
            (b : Bool)
            → le x z ≡ b
            → IsSorted le (if b then x ∷ z ∷ ys else z ∷ insert_by le x ys)
            → le y x ≡ true
            → IsSorted le (y ∷ (if b then x ∷ z ∷ ys else z ∷ insert_by le x ys))
        after true e r yx = (yx, r)
        after false e r yx = (d, r)

    sort_by-IsSorted : (xs : List A) → IsSorted le (sort_by le xs)
    sort_by-IsSorted [] = tt
    sort_by-IsSorted (x ∷ xs) = insert_by-IsSorted x (sort_by le xs) (sort_by-IsSorted xs)

abbrev nth : List Bool → ℕ → Bool
nth [] i = true
nth (b ∷ bs) zero = b
nth (b ∷ bs) (suc i) = nth bs i

nth-true : (bs : List Bool) (i : ℕ) → all (λ b. b) bs ≡ true → nth bs i ≡ true
nth-true [] i h = refl
nth-true (b ∷ bs) zero h = ground arith
nth-true (b ∷ bs) (suc i) h = nth-true bs i (ground arith)

abbrev pub lower_ascii : Str → Str
lower_ascii [] = []
lower_ascii (c ∷ s) = (if leb b'A' c && leb c b'Z' then c + 32 else c) ∷ lower_ascii s

abbrev pub checks : Db → List Bool
checks db =
    (distinct (λ a b. a.id == b.id) db.users)
    ∷ (distinct (λ a b. str_eq a.email b.email) db.users)
    ∷ (distinct (λ a b. a.id == b.id) db.refresh_tokens)
    ∷ (distinct (λ a b. str_eq a.token_hash b.token_hash) db.refresh_tokens)
    ∷ (all (λ t. refers (λ (u : UserModel). u.id) db.users t.user_id) db.refresh_tokens)
    ∷ (distinct (λ a b. a.id == b.id) db.technologies)
    ∷ (distinct (λ a b. str_eq a.name b.name) db.technologies)
    ∷ (distinct (λ a b. a.id == b.id) db.projects)
    ∷ (distinct (λ a b. str_eq a.slug b.slug) db.projects)
    ∷ (all (λ p. may_refer (λ (c : ClientModel). c.id) db.clients p.client_id) db.projects)
    ∷ (distinct same_pair db.project_technologies)
    ∷ (distinct (λ a b. a.id == b.id) db.articles)
    ∷ (distinct (λ a b. str_eq a.slug b.slug) db.articles)
    ∷ (all (λ a. refers (λ (u : UserModel). u.id) db.users a.author_id) db.articles)
    ∷ (all (λ a. not a.published || not (is_none a.published_at)) db.articles)
    ∷ (distinct (λ a b. a.id == b.id) db.services)
    ∷ (distinct (λ a b. str_eq a.slug b.slug) db.services)
    ∷ (distinct (λ a b. a.id == b.id) db.service_lines)
    ∷ (distinct (λ a b. str_eq a.slug b.slug) db.service_lines)
    ∷ (distinct (λ a b. a.id == b.id) db.case_studies)
    ∷ (all (λ c. refers (λ (p : ProjectModel). p.id) db.projects c.project_id) db.case_studies)
    ∷ (distinct (λ a b. a.id == b.id) db.clients)
    ∷ (distinct (λ a b. a.id == b.id) db.testimonials)
    ∷ (all (λ t. may_refer (λ (c : ClientModel). c.id) db.clients t.client_id) db.testimonials)
    ∷ (all (λ t. may_refer (λ (p : ProjectModel). p.id) db.projects t.project_id) db.testimonials)
    ∷ (all (λ t. rating_in_range t.rating) db.testimonials)
    ∷ (distinct (λ a b. a.id == b.id) db.companies)
    ∷ (distinct (λ a b. a.id == b.id) db.contact_requests)
    ∷ (distinct (λ a b. a.id == b.id) db.partners)
    ∷ (distinct (λ a b. a.id == b.id) db.products)
    ∷ (distinct (λ a b. str_eq a.slug b.slug) db.products)
    ∷ (distinct (λ a b. a.id == b.id) db.team_members)
    ∷ (all (λ m. may_refer (λ (u : UserModel). u.id) db.users m.user_id) db.team_members)
    ∷ (distinct (λ a b. str_eq (lower_ascii a.email) (lower_ascii b.email)) db.users)
    ∷ (all (λ u. is_in str_eq user_roles u.role) db.users)
    ∷ (all (links (λ (p : ProjectModel). p.id) db.projects db.technologies) db.project_technologies)
    ∷ (all (λ p. is_in str_eq project_states p.status) db.projects)
    ∷ (all (λ p. is_in str_eq visibilities p.visibility) db.projects)
    ∷ (distinct same_pair db.article_technologies)
    ∷ (all (links (λ (a : ArticleModel). a.id) db.articles db.technologies) db.article_technologies)
    ∷ (all (λ s. may_refer (λ (l : ServiceLineModel). l.id) db.service_lines s.service_line_id)
        db.services)
    ∷ (all
        (λ r.
          may_refer (λ (l : ServiceLineModel). l.id) db.service_lines r.interested_service_line_id)
        db.contact_requests)
    ∷ (all (λ r. is_in str_eq contact_states r.status) db.contact_requests)
    ∷ (all (λ p. is_in str_eq product_states p.status) db.products)
    ∷ []

pub checks_sound : (db : Db) → all (λ b. b) (checks db) ≡ true → IsConsistent str_eq lower_ascii db
checks_sound db h = record {
  user_ids = distinct_sound _ _ (nth-true (checks db) 0 h);
  user_emails = distinct_sound _ _ (nth-true (checks db) 1 h);
  token_ids = distinct_sound _ _ (nth-true (checks db) 2 h);
  token_hashes = distinct_sound _ _ (nth-true (checks db) 3 h);
  token_users = nth-true (checks db) 4 h;
  technology_ids = distinct_sound _ _ (nth-true (checks db) 5 h);
  technology_names = distinct_sound _ _ (nth-true (checks db) 6 h);
  project_ids = distinct_sound _ _ (nth-true (checks db) 7 h);
  project_slugs = distinct_sound _ _ (nth-true (checks db) 8 h);
  project_clients = nth-true (checks db) 9 h;
  project_pairs = distinct_sound _ _ (nth-true (checks db) 10 h);
  article_ids = distinct_sound _ _ (nth-true (checks db) 11 h);
  article_slugs = distinct_sound _ _ (nth-true (checks db) 12 h);
  article_authors = nth-true (checks db) 13 h;
  article_dates = nth-true (checks db) 14 h;
  service_ids = distinct_sound _ _ (nth-true (checks db) 15 h);
  service_slugs = distinct_sound _ _ (nth-true (checks db) 16 h);
  service_line_ids = distinct_sound _ _ (nth-true (checks db) 17 h);
  service_line_slugs = distinct_sound _ _ (nth-true (checks db) 18 h);
  case_study_ids = distinct_sound _ _ (nth-true (checks db) 19 h);
  case_study_projects = nth-true (checks db) 20 h;
  client_ids = distinct_sound _ _ (nth-true (checks db) 21 h);
  testimonial_ids = distinct_sound _ _ (nth-true (checks db) 22 h);
  testimonial_clients = nth-true (checks db) 23 h;
  testimonial_projects = nth-true (checks db) 24 h;
  testimonial_ratings = nth-true (checks db) 25 h;
  company_ids = distinct_sound _ _ (nth-true (checks db) 26 h);
  contact_ids = distinct_sound _ _ (nth-true (checks db) 27 h);
  partner_ids = distinct_sound _ _ (nth-true (checks db) 28 h);
  product_ids = distinct_sound _ _ (nth-true (checks db) 29 h);
  product_slugs = distinct_sound _ _ (nth-true (checks db) 30 h);
  team_member_ids = distinct_sound _ _ (nth-true (checks db) 31 h);
  team_member_users = nth-true (checks db) 32 h;
  user_emails_lower = distinct_sound _ _ (nth-true (checks db) 33 h);
  user_roles_known = nth-true (checks db) 34 h;
  project_links = nth-true (checks db) 35 h;
  project_states_known = nth-true (checks db) 36 h;
  project_visibilities = nth-true (checks db) 37 h;
  article_pairs = distinct_sound _ _ (nth-true (checks db) 38 h);
  article_links = nth-true (checks db) 39 h;
  service_service_lines = nth-true (checks db) 40 h;
  contact_service_lines = nth-true (checks db) 41 h;
  contact_states_known = nth-true (checks db) 42 h;
  product_states_known = nth-true (checks db) 43 h;
}

abbrev settings : Settings
settings = record {
  jwt_secret_key = text "secret";
  jwt_algorithm = text "HS256";
  access_token_expire_minutes = 15;
  refresh_token_expire_days = 7;
  refresh_token_retention_days = 30;
  seed_admin_name = text "Admin";
  seed_admin_email = text " Admin@ch-tech.dev";
  seed_admin_password = text "changeme";
  resend_api_key = none;
  contact_notification_email = none;
  contact_notification_from = text "CH-TECH <onboarding@resend.dev>";
}

abbrev ascii_only : Unicode
ascii_only = record { lower_wide = λ c. c ∷ []; nfkc_ok = λ s. true; bracket_ok = λ s. true }

abbrev decode : ℕ → Str → Result (Option Json)
decode t [] = err invalid_token_error
decode t (exp ∷ sub) = if ltb t exp then ok (some (str sub)) else err invalid_token_error

abbrev parse_one : Str → Result ℕ
parse_one [] = err value_error
parse_one (k ∷ []) = ok k
parse_one (_ ∷ _ ∷ _) = err value_error

abbrev total_code : Str → ℕ
total_code [] = 0
total_code (c ∷ s) = c + total_code s

only_found : {A : Type 0} (found : Option A) → only (to_list found) ≡ ok found
only_found none = refl
only_found (some a) = refl

abbrev expire_key : ℕ → Str → ℕ → Option (ℕ × Option ℕ) → Keyspace → Keyspace
expire_key t k s none keys = keys
expire_key t k s (some (n, e)) keys = put k (some (n, some (t + seconds s))) keys

-- The clock ticks once a microsecond from day 1000, and a token is its own number.
abbrev pub memory : Env
memory = record {
  settings = settings;
  unicode = ascii_only;
  clock_at = λ n. 86_400_000_000_000 + n;
  uuid_at = λ n. 1000 + n;
  secret_at = λ n. (1000 + n) ∷ [];
  sha256_hex = λ s. s;
  checkpw = λ password hash. ok (str_eq password hash);
  hashpw = λ n s. ok s;
  jwt_encode = λ claims key algorithm. claims.exp ∷ claims.sub;
  jwt_decode = λ t token key algorithm. decode t token;
  accepts = λ db. all (λ b. b) (checks db);
  breaks_key = λ db. true;
  lower_text = lower_ascii;
  same_text = str_eq;
  text_le = λ a b. leb (total_code a) (total_code b);
  ilike = λ value pattern. true;
  select_one = λ p rows. only (filter p rows);
  select = λ p rows. filter p rows;
  page = λ le n m rows. slice n m (sort_by le rows);
  is_modified = λ old new. true;
  incr = λ t k keys. (
    suc (live_count t (keys k)),
    put k (some (suc (live_count t (keys k)), live_deadline t (keys k))) keys,
  );
  expire = λ t k s keys. expire_key t k s (keys k) keys;
  ttl = λ t k keys. pos 1;
  uuid_text = λ k. k ∷ [];
  uuid_parse = parse_one;
}

pub memory_laws : SqlLaws memory
memory_laws = record {
  one_found = λ p rows found e. rw e (only_found found);
  many_found = λ p rows x y more e. rw e;
  select_perm = λ p rows. Perm.refl _;
  page_slice = λ le n m rows total.
      (sort_by le rows, sort_by-perm le rows, sort_by-IsSorted le total rows, refl);
  accepts_sound = checks_sound;
  same_refl = str_eq_refl;
  same_sym = λ a b h. rw (str_eq→eq a b h) (str_eq_refl b);
  same_trans = λ a b c h k. rw (str_eq→eq a b h) k;
}

pub memory_redis : RedisLaws memory
memory_redis = record { incr_put = λ t k keys. refl; expire_put = λ t k s n keys e. rw e }
