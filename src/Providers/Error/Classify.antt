-- ===== src/Providers/Error/Classify.antt =====
-- What src/providers/provider_error.cpp makes of a status and a body.
use rav_bot.Prelude.{◌≡◌, ◌↔◌, none, false, arith}
use rav_bot.Prelude.Int.{ℤ, pos, ◌≤ℤ◌}
use rav_bot.Prelude.Text.{Str}
use rav_bot.Providers.Error.{
  transient, is_improper_request, kind_of_status, kind_of_body, classify_http_error,
}

-- An error is transient exactly when the body is not that of an improper request, the status is
-- at least 500, and the body names no billing or context error unless the status is one of 500,
-- 502, 503 and 504.
classify_transient :
    (status : ℤ) (body : Str)
    → (classify_http_error status body ≡ transient) ↔ (
        (is_improper_request body ≡ false)
        × (pos 500 ≤ℤ status)
        × (kind_of_status status ≡ none → kind_of_body body ≡ none))
unfolding classify_http_error kind_of_status kind_of_body
classify_transient status body = (λ h. ground arith, λ h. ground arith)
