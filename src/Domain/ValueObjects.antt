-- ===== src/Domain/ValueObjects.antt =====
-- app/domain/value_objects.py. A value object is a record with the field `value`; its constructor
-- function returns it or raises `ValueError`.
pub mod UrlSplit
pub mod Slugs
pub mod Urls
use ch_tech_landing_page_bac.Base.{
  ℕ, Bool, true, false, ◌||◌, ◌&&◌, not, List, [], ◌∷◌, ltb, leb, ◌==◌, if◌then◌else◌, length,
}
use ch_tech_landing_page_bac.Errors.{Result, ok, err, value_error, ◌>>=◌}
use ch_tech_landing_page_bac.Text.{Str, text, str_eq, is_space, strip, Unicode, lower}
use ch_tech_landing_page_bac.Text.Regex.{Regex, class, seq, star, plus, fullmatch}
use UrlSplit.{urlsplit}

pub record Email : Type 0 where
  pub value : Str

pub record Slug : Type 0 where
  pub value : Str

pub record Url : Type 0 where
  pub value : Str

pub record Image : Type 0 where
  pub value : Str

pub record Password : Type 0 where
  pub value : Str

pub record MarkdownContent : Type 0 where
  pub value : Str

abbrev pub slug_char : ℕ → Bool
slug_char c = (leb b'a' c && leb c b'z') || (leb b'0' c && leb c b'9')

abbrev pub is_char : ℕ → ℕ → Bool
is_char d c = c == d

-- `_SLUG_RE`: ^[a-z0-9]+(-[a-z0-9]+)*$
abbrev pub slug_re : Regex
slug_re = seq (plus (class slug_char)) (star (seq (class (is_char b'-')) (plus (class slug_char))))

-- `[^@\s]`
unfoldable pub email_char : ℕ → Bool
unfolding is_space
email_char c = not (c == b'@' || is_space c)

-- `_EMAIL_RE`: ^[^@\s]+@[^@\s]+\.[^@\s]+$
abbrev pub email_re : Regex
email_re = seq (plus (class email_char)) (
    seq (class (is_char b'@'))
      (seq (plus (class email_char)) (seq (class (is_char b'.')) (plus (class email_char)))))

abbrev pub password_min_length : ℕ
password_min_length = 8

abbrev pub max_url_length : ℕ
max_url_length = 2048

-- `Slug.__post_init__`
unfoldable pub make_slug : Str → Result Slug
unfolding fullmatch
make_slug s = if fullmatch slug_re s then ok (record { value = s }) else err value_error

-- `Password.__post_init__`
unfoldable pub make_password : Str → Result Password
unfolding strip
make_password s =
    if ltb (length (strip s)) password_min_length
    then err value_error
    else ok (record { value = s })

-- `MarkdownContent.__post_init__`
unfoldable pub make_markdown : Str → Result MarkdownContent
unfolding strip
make_markdown s = if str_eq (strip s) [] then err value_error else ok (record { value = s })

module _ (u : Unicode) where
  -- `self.value.strip().lower()`, which `Login.execute` repeats.
  unfoldable pub normalize_email : Str → Str
  unfolding strip lower
  normalize_email s = lower u (strip s)

  -- `Email.__post_init__`
  unfoldable pub make_email : Str → Result Email
  unfolding normalize_email fullmatch email_char
  make_email s =
      if fullmatch email_re (normalize_email s)
      then ok (record { value = normalize_email s })
      else err value_error

  -- `_is_http_url`; `urlsplit` may raise.
  unfoldable pub is_http_url : Str → Result Bool
  unfolding urlsplit
  is_http_url s = if ltb max_url_length (length s) then ok false else (do
    (scheme, netloc) ← urlsplit u s
    ok ((str_eq scheme (text "http") || str_eq scheme (text "https")) && not (str_eq netloc [])))

  -- `Url.__post_init__`
  unfoldable pub make_url : Str → Result Url
  unfolding is_http_url
  make_url s = do good ← is_http_url s; if good then ok (record { value = s }) else err value_error

  -- `Image.__post_init__`
  unfoldable pub make_image : Str → Result Image
  unfolding is_http_url
  make_image s = do
    good ← is_http_url s
    if good then ok (record { value = s }) else err value_error
