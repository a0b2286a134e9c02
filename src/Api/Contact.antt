-- ===== src/Api/Contact.antt =====
-- app/api/v1/contact.py, app/schemas/contact.py and app/core/email.py: the contact form and the
-- mail that tells the administrator.
use ch_tech_landing_page_bac.Base.{Bool, ◌&&◌, not, Option, none, some, [], ◌∷◌, ◌++◌}
use ch_tech_landing_page_bac.Errors.{Result, ok, err, http_error, request_validation_error}
use ch_tech_landing_page_bac.Text.{Str, text}
use ch_tech_landing_page_bac.Domain.Entities.{ContactRequest}
use ch_tech_landing_page_bac.App.{App, ◌>>=◌, ◌>>◌, pure, raise_if}
use ch_tech_landing_page_bac.App.Outside.{Env, Settings}
use ch_tech_landing_page_bac.Api.Http.{Caller, at_most, every, in_length}
use ch_tech_landing_page_bac.Content.Contact
use ch_tech_landing_page_bac.Content.Contact.{ContactRequestInput}
use ch_tech_landing_page_bac.RateLimit.{limit_ip}

-- A payload whose fields have their types, `EmailStr` for the email.
pub record ContactCreate : Type 0 where
  pub name : Str
  pub email : Str
  pub company : Option Str
  pub subject : Option Str
  pub message : Str

pub record ContactReceived : Type 0 where
  pub message : Str

-- What the handler leaves behind: the response, and the request whose mail is scheduled.
pub record Submitted : Type 0 where
  pub response : ContactReceived
  pub scheduled : ContactRequest

-- The bounds of `ContactCreate`.
unfoldable pub valid : ContactCreate → Bool
valid payload =
    at_most 255 payload.name
    && (every (at_most 255) payload.company
        && (every (at_most 255) payload.subject && in_length 20 5000 payload.message))

module _ (env : Env) where
  -- `_contact_rate_limit`
  unfoldable pub contact_rate_limit : Caller → App (Unit {0})
  contact_rate_limit caller = limit_ip env 10 3600 (text "contact") caller.host

  -- `POST /contact`
  unfoldable pub submit_contact_request : Caller → ContactCreate → App Submitted
  submit_contact_request caller payload = do
    contact_rate_limit caller
    raise_if (not (valid payload)) request_validation_error
    contact ← Contact.submit_contact_request env (record {
      name = payload.name;
      email = payload.email;
      company = payload.company;
      subject = payload.subject;
      message = payload.message;
    })
    pure (record {
      response = record { message = text "Contact request received." };
      scheduled = contact;
    })

-- The request that is posted to Resend.
pub record Mail : Type 0 where
  pub authorization : Str
  pub from_address : Str
  pub to_address : Str
  pub subject : Str
  pub body : Str

-- `a or b`: the empty text counts as none.
abbrev pub text_or : Option Str → Str → Str
text_or none b = b
text_or (some []) b = b
text_or (some (c ∷ a)) b = c ∷ a

-- `payload` and `headers` of `send_contact_notification_email`.
unfoldable pub notification : Str → Str → Str → ContactRequest → Mail
notification key from_address to_address contact = record {
  authorization = text "Bearer " ++ key;
  from_address = from_address;
  to_address = to_address;
  subject = text "Nueva solicitud de contacto: " ++ text_or contact.subject contact.name;
  body =
      text "Nombre: "
      ++ contact.name
      ++ text "\n"
      ++ text "Email: "
      ++ contact.email.value
      ++ text "\n"
      ++ text "Empresa: "
      ++ text_or contact.company (text "-")
      ++ text "\n\n"
      ++ contact.message;
}

-- `except httpx.HTTPError`: the failure is logged.
abbrev pub swallow_http_error : Result (Unit {0}) → Result (Unit {0})
swallow_http_error (err http_error) = ok tt
swallow_http_error r = r

-- Both settings are given, or nothing is sent.
unfoldable pub send_if_configured :
    Settings
    → Option Str
    → Option Str
    → (Mail → Result (Unit {0}))
    → ContactRequest
    → Result (Unit {0})
unfolding notification
send_if_configured settings none to_address post contact = ok tt
send_if_configured settings (some key) none post contact = ok tt
send_if_configured settings (some key) (some to_address) post contact =
    swallow_http_error
      (post (notification key settings.contact_notification_from to_address contact))

-- `send_contact_notification_email`, over the client's `post` with `raise_for_status`.
unfoldable pub send_contact_notification_email :
    Settings → (Mail → Result (Unit {0})) → ContactRequest → Result (Unit {0})
unfolding send_if_configured
send_contact_notification_email settings post contact =
    send_if_configured settings settings.resend_api_key settings.contact_notification_email post
      contact
