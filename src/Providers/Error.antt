-- ===== src/Providers/Error.antt =====
-- include/ravbot/providers/provider_error.hpp and src/providers/provider_error.cpp.
pub mod Classify
use rav_bot.Prelude.{Bool, ◌||◌, Option, none, some, if◌then◌else◌}
use rav_bot.Prelude.Int.{ℤ, pos, eq_ℤ, leb_ℤ, ltb_ℤ}
use rav_bot.Prelude.Text.{Str, bytes, contains}
use rav_bot.Prelude.{is_empty, not, ◌&&◌}

pub data ProviderErrorKind : Type 0 where
  rate_limit auth_error billing_error transient model_not_found : ProviderErrorKind
  timeout context_overflow unknown : ProviderErrorKind

unfoldable pub provider_error_kind_to_string : ProviderErrorKind → Str
provider_error_kind_to_string rate_limit = bytes "rate_limit"
provider_error_kind_to_string auth_error = bytes "auth_error"
provider_error_kind_to_string billing_error = bytes "billing_error"
provider_error_kind_to_string transient = bytes "transient"
provider_error_kind_to_string model_not_found = bytes "model_not_found"
provider_error_kind_to_string timeout = bytes "timeout"
provider_error_kind_to_string context_overflow = bytes "context_overflow"
provider_error_kind_to_string unknown = bytes "unknown"

-- The first test of the function, on a body that is not empty.
unfoldable pub is_improper_request : Str → Bool
is_improper_request body =
    not (is_empty body)
    && (contains (bytes "Improperly formed request") body
        || contains (bytes "400 (Bad Request") body)

-- The `switch`, with `none` for its default.
unfoldable pub kind_of_status : ℤ → Option ProviderErrorKind
kind_of_status status =
    if eq_ℤ status (pos 429)
    then some rate_limit
    else if eq_ℤ status (pos 401) || eq_ℤ status (pos 403)
    then some auth_error
    else if eq_ℤ status (pos 402)
    then some billing_error
    else if eq_ℤ status (pos 404)
    then some model_not_found
    else if eq_ℤ status (pos 500)
        || eq_ℤ status (pos 502)
        || eq_ℤ status (pos 503)
        || eq_ℤ status (pos 504)
    then some transient
    else none

-- The tests on the body after the `switch`.
unfoldable pub kind_of_body : Str → Option ProviderErrorKind
kind_of_body body =
    if is_empty body
    then none
    else if contains (bytes "insufficient_credits") body
        || contains (bytes "insufficient_quota") body
        || contains (bytes "billing") body
    then some billing_error
    else if contains (bytes "context_length") body
        || contains (bytes "context_window") body
        || contains (bytes "token limit") body
        || contains (bytes "maximum context length") body
        || contains (bytes "max_tokens") body
    then some context_overflow
    else none

kind_of_range : ℤ → ProviderErrorKind
kind_of_range status =
    if leb_ℤ (pos 400) status && ltb_ℤ status (pos 500)
    then unknown
    else if leb_ℤ (pos 500) status
    then transient
    else unknown

unfoldable pub classify_http_error : ℤ → Str → ProviderErrorKind
unfolding kind_of_range
classify_http_error status body =
    if is_improper_request body then unknown else elim (kind_of_status status) [
      | some kind ↦ kind
      | none ↦ elim (kind_of_body body) [ some kind ↦ kind | none ↦ kind_of_range status ]
    ]
