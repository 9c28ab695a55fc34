-- ===== src/Response.antt =====
-- delivery/http/handler/response.go: the envelope of every answer of the API, with its HTTP status.
use quant_indonesia_scraping.Prelude.{ℕ, ℤ, Bool, true, false, Option, none, some, Text, codes}

pub record ApiError : Type 0 where
  pub code : Text
  pub message : Text

pub record Meta : Type 0 where
  pub limit : ℤ
  pub offset : ℤ
  pub count : ℕ

-- `D` is the type of the data.
pub record ApiResponse (D : Type 0) : Type 0 where
  pub success : Bool
  pub payload : Option D  -- the field Data
  pub error : Option ApiError
  pub meta : Option Meta

-- What `c.JSON` sends.
pub record Answer (D : Type 0) : Type 0 where
  pub status : ℕ
  pub body : ApiResponse D

abbrev pub code_validation : Text
code_validation = codes "VALIDATION_ERROR"

abbrev pub code_not_found : Text
code_not_found = codes "NOT_FOUND"

abbrev pub code_internal : Text
code_internal = codes "INTERNAL_ERROR"

abbrev pub code_bad_request : Text
code_bad_request = codes "BAD_REQUEST"

module _ {D : Type 0} where
  unfoldable pub new_error_response : Text → Text → ApiResponse D
  new_error_response code message = record {
    success = false;
    payload = none;
    error = some (record { code = code; message = message });
    meta = none;
  }

  unfoldable pub new_success_response : D → Option Meta → ApiResponse D
  new_success_response payload meta = record {
    success = true;
    payload = some payload;
    error = none;
    meta = meta;
  }

  abbrev pub fails : ℕ → Text → Text → Answer D
  fails status code message = record { status = status; body = new_error_response code message }

  abbrev pub succeeds : ℕ → D → Option Meta → Answer D
  succeeds status payload meta = record {
    status = status;
    body = new_success_response payload meta;
  }
