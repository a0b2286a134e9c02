-- ===== src/Domain/ValueObjects/Urls.antt =====
-- Which texts are URLs.
use ch_tech_landing_page_bac.Base.{
  true, false, ◌||◌, ◌&&◌, not, [], ◌≡◌, ◌≤◌, ◌⊎◌, sym, ap, length, ltb, arith, Bool-cases, inl,
  inr,
}
use ch_tech_landing_page_bac.Errors.{Result, ok, err, bind_ok}
use ch_tech_landing_page_bac.Text.{Str, Unicode, text, str_eq}
use ch_tech_landing_page_bac.Text.Laws.{str_eq→eq}
use ch_tech_landing_page_bac.Domain.ValueObjects.{Url, make_url, is_http_url, max_url_length}
use ch_tech_landing_page_bac.Domain.ValueObjects.UrlSplit.{urlsplit}
use ch_tech_landing_page_bac.Domain.ValueObjects.UrlSplit.Shape.{HasShape, urlsplit-HasShape}

abbrev url_of : Result Url → Str
url_of (ok url) = url.value
url_of (err e) = []

-- At most 2048 characters: `http` or `https` in letters of any case, `://`, and something to
-- connect to.
pub record IsHttpUrl (s : Str) : Type 0 where
  pub short : length s ≤ 2048
  pub scheme : Str
  pub is_http : (scheme ≡ text "http") ⊎ (scheme ≡ text "https")
  pub shape : HasShape s scheme

http_scheme :
    (scheme : Str)
    → (str_eq scheme (text "http") || str_eq scheme (text "https")) ≡ true
    → (scheme ≡ text "http") ⊎ (scheme ≡ text "https")
http_scheme scheme h = elim (Bool-cases (str_eq scheme (text "http"))) [
  | inl y ↦ inl (str_eq→eq scheme (text "http") y)
  | inr n ↦ inr (str_eq→eq scheme (text "https") (ground arith))
]

not_empty :
    (scheme : Str) → (scheme ≡ text "http") ⊎ (scheme ≡ text "https") → str_eq scheme [] ≡ false
not_empty scheme (inl e) = ap (λ x. str_eq x []) e
not_empty scheme (inr e) = ap (λ x. str_eq x []) e

module _ (u : Unicode) (s : Str) where
  is_http_url-IsHttpUrl : is_http_url u s ≡ ok true → IsHttpUrl s
  unfolding is_http_url
  is_http_url-IsHttpUrl e = elim (Bool-cases (ltb max_url_length (length s))) [
    | inl long ↦ absurd (let bad = rw long at e in cc)
    | inr short ↦
        let (parts, e1, e2) = bind_ok (urlsplit u s) _ true (rw short at e) in
        let good : ((str_eq parts.0 (text "http") || str_eq parts.0 (text "https"))
              && not (str_eq parts.1 []))
            ≡ true =
          cc in
        let http = http_scheme parts.0 (ground arith) in
        record {
          short = ground arith;
          scheme = parts.0;
          is_http = http;
          shape = urlsplit-HasShape u s parts.0 parts.1 e1 (not_empty parts.0 http) (ground arith);
        }
  ]

  -- A text that becomes a `Url` is kept as it is and has at most 2048 characters; without the
  -- control characters and spaces at its start, and without tabs and line ends anywhere, it is the
  -- word `http` or `https` in ASCII letters of any case, then `://`, and then at least one
  -- character that is no `/`, `?` or `#`.
  pub make_url-IsHttpUrl : (url : Url) → make_url u s ≡ ok url → (url.value ≡ s) × IsHttpUrl s
  unfolding make_url
  make_url-IsHttpUrl url e =
      let (good, e1, e2) = bind_ok (is_http_url u s) _ url e in
      elim (Bool-cases good) [
        | inl g ↦
            (let made = rw g at e2 in sym (ap url_of made), is_http_url-IsHttpUrl (rw g at e1))
        | inr b ↦ absurd (let bad = rw b at e2 in cc)
      ]
