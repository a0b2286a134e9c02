-- ===== src/Api/Responses.antt =====
-- app/api/exception_handlers.py and app/schemas/response.py: what the client sees of an exception.
pub mod Codes
use ch_tech_landing_page_bac.Base.{
  ℕ, Bool, true, false, Option, none, some, String, ◌==◌, if◌then◌else◌,
}
use ch_tech_landing_page_bac.Errors.{Error, AppError, app_error, request_validation_error}

pub record ErrorDetail : Type 0 where
  pub code : String
  pub message : String

-- The status and the `ErrorResponse` of a `JSONResponse`.
pub record ErrorResponse : Type 0 where
  pub status_code : ℕ
  pub success : Bool
  pub error : ErrorDetail

-- `_error_response`
abbrev pub error_response : ℕ → String → String → ErrorResponse
error_response status code message = record {
  status_code = status;
  success = false;
  error = record { code = code; message = message };
}

unfoldable pub app_error_handler : AppError → ErrorResponse
app_error_handler e = error_response e.status_code e.code e.message

-- `_STATUS_CODE_TO_ERROR_CODE.get(status, "HTTP_ERROR")`
unfoldable pub status_code_to_error_code : ℕ → String
status_code_to_error_code status =
    if status == 400
    then "BAD_REQUEST"
    else if status == 401
    then "UNAUTHORIZED"
    else if status == 403
    then "FORBIDDEN"
    else if status == 404
    then "RESOURCE_NOT_FOUND"
    else if status == 409
    then "CONFLICT"
    else if status == 422
    then "VALIDATION_ERROR"
    else "HTTP_ERROR"

-- For an `HTTPException` that the framework raises, with its status and detail.
unfoldable pub http_exception_handler : ℕ → String → ErrorResponse
unfolding status_code_to_error_code
http_exception_handler status detail =
    error_response status (status_code_to_error_code status) detail

unfoldable pub validation_exception_handler : ErrorResponse
validation_exception_handler = error_response 422 "VALIDATION_ERROR" "Invalid request data"

unfoldable pub unhandled_exception_handler : ErrorResponse
unhandled_exception_handler = error_response 500 "INTERNAL_SERVER_ERROR" "Internal server error"

abbrev is_validation_error : Error → Bool
is_validation_error request_validation_error = true
is_validation_error e = false

abbrev answer : Bool → Option AppError → ErrorResponse
answer is_invalid (some a) = app_error_handler a
answer true none = validation_exception_handler
answer false none = unhandled_exception_handler

-- Which handler takes an exception that is no `HTTPException`: the one of its nearest class.
unfoldable pub handle : Error → ErrorResponse
unfolding app_error app_error_handler validation_exception_handler unhandled_exception_handler
handle e = answer (is_validation_error e) (app_error e)
