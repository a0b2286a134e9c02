-- ===== src/Api/Responses/Codes.antt =====
-- What the exception handlers let a client see.
use ch_tech_landing_page_bac.Base.{false, String, ◌≡◌, ◌==◌, refl}
use ch_tech_landing_page_bac.Errors.{Error, app_error, request_validation_error}
use ch_tech_landing_page_bac.Api.Responses.{
  handle, app_error_handler, validation_exception_handler, unhandled_exception_handler,
  status_code_to_error_code, http_exception_handler,
}

-- The exceptions of the application and those of the framework have one code for one status: the
-- code of any response but 429 and 500 is the one that an `HTTPException` of its status gets.
pub handle-http_exception_handler :
    (e : Error) (detail : String)
    → (((handle e).status_code == 429) ≡ false)
    → (((handle e).status_code == 500) ≡ false)
    → (handle e).error.code ≡ (http_exception_handler (handle e).status_code detail).error.code
unfolding handle app_error app_error_handler validation_exception_handler
    unhandled_exception_handler http_exception_handler status_code_to_error_code
handle-http_exception_handler (Error.resource_not_found m) d h k = refl
handle-http_exception_handler (Error.conflict m) d h k = refl
handle-http_exception_handler (Error.unauthorized m) d h k = refl
handle-http_exception_handler (Error.forbidden m) d h k = refl
handle-http_exception_handler (Error.rate_limit_exceeded n) d h k = absurd (cc)
handle-http_exception_handler request_validation_error d h k = refl
handle-http_exception_handler _ d h k = absurd (cc)
