-- ===== src/Witnesses/Settings.antt =====
-- The property of the environment at a concrete one: production, with payments and SMS on.
use v2_backend.Config.Env.{
  Env, validate_env, production, issues, required, test_phone_issues, info, push_issues, is_blank,
  validate_env_accepts,
}
use v2_backend.Common.{◌≡◌, none, [], ◌∷◌, false, true, ◌≢◌, refl, Text}

abbrev text : Text
text = 120 ∷ []

abbrev live_env : Env
live_env = record {
  node_env = production;
  port = 3000;
  cors_origins = text;
  database_url = text;
  redis_url = text;
  jwt_access_secret = text;
  jwt_access_ttl_seconds = 900;
  jwt_refresh_ttl_days = 30;
  otp_ttl_seconds = 300;
  otp_resend_cooldown_seconds = 30;
  otp_test_phones = 32 ∷ [];
  otp_test_allow_in_production = false;
  otp_test_code = text;
  sms_enabled = true;
  sms_access_token = text;
  sms_access_token_key = text;
  sms_sender_id = text;
  sms_country_code = text;
  whatsapp_enabled = false;
  whatsapp_api_version = text;
  whatsapp_phone_number_id = [];
  whatsapp_access_token = [];
  whatsapp_template_name = text;
  whatsapp_template_language = text;
  push_enabled = true;
  firebase_service_account_path = text;
  razorpay_enabled = true;
  razorpay_key_id = text;
  razorpay_key_secret = text;
  razorpay_webhook_secret = text;
  google_maps_api_key = [];
  places_region_code = text;
  throttle_ttl_seconds = 60;
  throttle_limit = 100;
  s3_region = text;
  s3_bucket = text;
  s3_endpoint = none;
  s3_force_path_style = false;
  log_level = info;
  swagger_enabled = true;
}

validate_env_accepts_example :
    (live_env ≡ live_env)
    × (live_env.whatsapp_enabled ≡ true
        → (live_env.whatsapp_phone_number_id ≢ []) × (live_env.whatsapp_access_token ≢ []))
    × (live_env.razorpay_enabled ≡ true
        → (live_env.razorpay_key_id ≢ [])
          × (live_env.razorpay_key_secret ≢ [])
          × (live_env.razorpay_webhook_secret ≢ []))
    × (live_env.sms_enabled ≡ true
        → (live_env.sms_access_token ≢ []) × (live_env.sms_access_token_key ≢ []))
    × (live_env.node_env ≡ production
        → live_env.otp_test_allow_in_production ≡ false
        → is_blank live_env.otp_test_phones ≡ true)
    × (live_env.push_enabled ≡ true → live_env.firebase_service_account_path ≢ [])
unfolding validate_env issues required test_phone_issues push_issues
validate_env_accepts_example = validate_env_accepts live_env live_env refl
