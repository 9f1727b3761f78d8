-- ===== src/Common/Error.antt =====
-- src/common/errors/domain.exceptions.ts: the failures that services throw, by class. Messages are
-- left out; a `DomainException` made on the spot keeps its status and machine-readable code.
use Prim.Native.Nat.{ℕ}

-- The codes of the exceptions that services make on the spot.
pub data Code : Type 0 where
  area_not_served promo_rejected payments_unavailable invalid_transition : Code
  invalid_payment_signature invalid_webhook_signature payment_mismatch : Code
  payment_not_completed cannot_order_own_listing not_approved wrong_category : Code
  not_assigned order_not_completed already_reviewed already_decided : Code
  customer_account phone_in_use email_in_use cannot_chat_with_self has_assignments : Code
  promo_expired : Code

-- What was not found, by the name that the exception is given.
pub data Resource : Type 0 where
  service address booking payment ad order user request professional place location : Resource
  promo_code provider_profile : Resource

-- `crash` is any other exception, such as a database error.
pub data Failure : Type 0 where
  domain : ℕ → Code → Failure
  validation unauthenticated forbidden duplicate too_many_requests upstream crash : Failure
  not_found : Resource → Failure

-- The response's status.
unfoldable pub http_status : Failure → ℕ
http_status (domain status _) = status
http_status validation = 400
http_status unauthenticated = 401
http_status forbidden = 403
http_status (not_found _) = 404
http_status duplicate = 409
http_status too_many_requests = 429
http_status upstream = 502
http_status crash = 500
