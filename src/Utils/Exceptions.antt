-- ===== src/Utils/Exceptions.antt =====
-- src/utils/exceptions.h and exceptions.cpp: the error of a call of the platform.
use waterproof_wrapper.Base.{Text, ℤ, pos}

pub record ApiError : Type 0 where
  pub what : Text
  pub error_number : ℤ

-- `api_error(message)`.
abbrev pub plain_error : Text → ApiError
plain_error message = record { what = message; error_number = pos 0 }

-- `api_error(message, error_number)`; `format_code` is fmt::format("{} (error code: {})", …).
-- The constructor that takes a logger, too, makes the same object.
abbrev pub coded_error : (Text → ℤ → Text) → Text → ℤ → ApiError
coded_error format_code message error_number = record {
  what = format_code message error_number;
  error_number = error_number;
}

-- What a call may throw: an `api_error`, nlohmann's `parse_error`, or another of its exceptions.
pub data Thrown : Type 0 where
  api_error : ApiError → Thrown
  parse_error : Thrown
  json_error : Thrown
