-- ===== src/Config/Env.antt =====
-- src/config/env.validation.ts: the environment after zod has parsed each variable, and the checks
-- between variables. Parsing itself is zod's.

use v2_backend.Common.{Text, is_space}
use v2_backend.Common.{
  ℕ, some, none, Bool, List, Option, ◌≡◌, true, all, ◌∷◌, if◌then◌else◌, ◌++◌, [], false, ◌&&◌,
  arith, All, ◌≢◌, not, Bool-cases, refl, inl, inr,
}

pub data NodeEnv : Type 0 where
  development test staging production : NodeEnv

pub data LogLevel : Type 0 where
  fatal error warn info debug trace : LogLevel

pub record Env : Type 0 where
  pub node_env : NodeEnv
  pub port : ℕ
  pub cors_origins : Text
  pub database_url : Text
  pub redis_url : Text
  pub jwt_access_secret : Text
  pub jwt_access_ttl_seconds : ℕ
  pub jwt_refresh_ttl_days : ℕ
  pub otp_ttl_seconds : ℕ
  pub otp_resend_cooldown_seconds : ℕ
  pub otp_test_phones : Text
  pub otp_test_allow_in_production : Bool
  pub otp_test_code : Text
  pub sms_enabled : Bool
  pub sms_access_token : Text
  pub sms_access_token_key : Text
  pub sms_sender_id : Text
  pub sms_country_code : Text
  pub whatsapp_enabled : Bool
  pub whatsapp_api_version : Text
  pub whatsapp_phone_number_id : Text
  pub whatsapp_access_token : Text
  pub whatsapp_template_name : Text
  pub whatsapp_template_language : Text
  pub push_enabled : Bool
  pub firebase_service_account_path : Text
  pub razorpay_enabled : Bool
  pub razorpay_key_id : Text
  pub razorpay_key_secret : Text
  pub razorpay_webhook_secret : Text
  pub google_maps_api_key : Text
  pub places_region_code : Text
  pub throttle_ttl_seconds : ℕ
  pub throttle_limit : ℕ
  pub s3_region : Text
  pub s3_bucket : Text
  pub s3_endpoint : Option Text
  pub s3_force_path_style : Bool
  pub log_level : LogLevel
  pub swagger_enabled : Bool

-- The variable that an issue names.
pub data EnvKey : Type 0 where
  whatsapp_phone_number_id_key whatsapp_access_token_key razorpay_id_key razorpay_secret_key :
      EnvKey
  razorpay_webhook_key sms_token_key sms_token_key_key test_phones_key firebase_path_key : EnvKey

abbrev pub is_empty : Text → Bool
is_empty [] = true
is_empty (c ∷ t) = false

-- `trim().length > 0`: some character is no space.
abbrev pub is_blank : Text → Bool
is_blank t = all is_space t

abbrev pub is_production : NodeEnv → Bool
is_production production = true
is_production _ = false

-- Every empty variable of an integration that is on.
unfoldable pub required : Bool → List (EnvKey × Text) → List EnvKey
required on [] = []
required on ((key, value) ∷ rest) =
    let later = required on rest in if on && is_empty value then key ∷ later else later

abbrev pub whatsapp_keys : Env → List (EnvKey × Text)
whatsapp_keys e =
    (whatsapp_phone_number_id_key, e.whatsapp_phone_number_id)
    ∷ (whatsapp_access_token_key, e.whatsapp_access_token)
    ∷ []

abbrev pub razorpay_keys : Env → List (EnvKey × Text)
razorpay_keys e =
    (razorpay_id_key, e.razorpay_key_id)
    ∷ (razorpay_secret_key, e.razorpay_key_secret)
    ∷ (razorpay_webhook_key, e.razorpay_webhook_secret)
    ∷ []

abbrev pub sms_keys : Env → List (EnvKey × Text)
sms_keys e = (sms_token_key, e.sms_access_token) ∷ (sms_token_key_key, e.sms_access_token_key) ∷ []

unfoldable pub test_phone_issues : Env → List EnvKey
test_phone_issues e =
    if is_production e.node_env
      && not (is_blank e.otp_test_phones)
      && not e.otp_test_allow_in_production
    then test_phones_key ∷ []
    else []

unfoldable pub push_issues : Env → List EnvKey
push_issues e =
    if e.push_enabled && is_empty e.firebase_service_account_path
    then firebase_path_key ∷ []
    else []

-- The `superRefine`: every problem at once, in order.
unfoldable pub issues : Env → List EnvKey
unfolding required test_phone_issues push_issues
issues e =
    required e.whatsapp_enabled (whatsapp_keys e)
    ++ (required e.razorpay_enabled (razorpay_keys e)
        ++ (required e.sms_enabled (sms_keys e) ++ (test_phone_issues e ++ push_issues e)))

-- `validateEnv`: the environment, or an error that names every problem.
unfoldable pub validate_env : Env → Option Env
unfolding issues
validate_env e = elim (issues e) [ [] ↦ some e | key ∷ rest ↦ none ]

append_nil : (k l : List EnvKey) → k ++ l ≡ [] → (k ≡ []) × (l ≡ [])
append_nil [] l e = (refl, e)
append_nil (x ∷ k) l e = ground arith

required_nil :
    (on : Bool) (l : List (EnvKey × Text))
    → required on l ≡ []
    → on ≡ true
    → All (λ kv. kv.1 ≢ []) l
unfolding required
required_nil on [] e h = tt
required_nil on ((key, []) ∷ l) e h = ground arith
required_nil on ((key, c ∷ t) ∷ l) e h =
    ((λ never. ground arith), required_nil on l (ground arith) h)

test_phones_nil :
    (e : Env)
    → test_phone_issues e ≡ []
    → e.node_env ≡ production
    → e.otp_test_allow_in_production ≡ false
    → is_blank e.otp_test_phones ≡ true
unfolding test_phone_issues
test_phones_nil e none_left live shut = elim (Bool-cases (is_blank e.otp_test_phones)) [
  | inl blank ↦ blank
  | inr named ↦ ground arith
]

push_nil :
    (e : Env) → push_issues e ≡ [] → e.push_enabled ≡ true → e.firebase_service_account_path ≢ []
unfolding push_issues
push_nil e none_left on missing = ground arith

-- An environment that is accepted is returned as it is, has the credentials of every integration that
-- is on, in production names phones with a fixed code only where a second setting allows them, and has
-- the path to the account of push notifications where these are on.
pub validate_env_accepts :
    (e e' : Env)
    → validate_env e ≡ some e'
    → (e' ≡ e)
      × (e.whatsapp_enabled ≡ true
          → (e.whatsapp_phone_number_id ≢ []) × (e.whatsapp_access_token ≢ []))
      × (e.razorpay_enabled ≡ true
          → (e.razorpay_key_id ≢ [])
            × (e.razorpay_key_secret ≢ [])
            × (e.razorpay_webhook_secret ≢ []))
      × (e.sms_enabled ≡ true → (e.sms_access_token ≢ []) × (e.sms_access_token_key ≢ []))
      × (e.node_env ≡ production
          → e.otp_test_allow_in_production ≡ false
          → is_blank e.otp_test_phones ≡ true)
      × (e.push_enabled ≡ true → e.firebase_service_account_path ≢ [])
unfolding validate_env issues
validate_env_accepts e e' ok_e = go (issues e) refl
  where
    Good : Type 0
    Good =
        (e' ≡ e)
        × (e.whatsapp_enabled ≡ true
            → (e.whatsapp_phone_number_id ≢ []) × (e.whatsapp_access_token ≢ []))
        × (e.razorpay_enabled ≡ true
            → (e.razorpay_key_id ≢ [])
              × (e.razorpay_key_secret ≢ [])
              × (e.razorpay_webhook_secret ≢ []))
        × (e.sms_enabled ≡ true → (e.sms_access_token ≢ []) × (e.sms_access_token_key ≢ []))
        × (e.node_env ≡ production
            → e.otp_test_allow_in_production ≡ false
            → is_blank e.otp_test_phones ≡ true)
        × (e.push_enabled ≡ true → e.firebase_service_account_path ≢ [])

    go : (l : List EnvKey) → issues e ≡ l → Good
    go (key ∷ rest) x = ground arith
    go [] x =
        let (whatsapp, y) = append_nil _ _ x in
        let (razorpay, z) = append_nil _ _ y in
        let (sms, w) = append_nil _ _ z in
        let (phones, push) = append_nil _ _ w in
        (
          ground arith,
          (λ on.
              (let (a, (b, _)) = required_nil e.whatsapp_enabled (whatsapp_keys e) whatsapp on in
                (a, b))),
          (λ on.
              (let (a, (b, (c, _))) =
                  required_nil e.razorpay_enabled (razorpay_keys e) razorpay on in
                (a, b, c))),
          (λ on. (let (a, (b, _)) = required_nil e.sms_enabled (sms_keys e) sms on in (a, b))),
          (λ live shut. test_phones_nil e phones live shut),
          λ on. push_nil e push on,
        )
