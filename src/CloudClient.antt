-- ===== src/CloudClient.antt =====
-- custom_components/ttlock_ble/api.py: the cloud client and its mapping of the cloud's errors. What the cloud
-- answers depends on the number of the call, so every sequence of answers is covered.
use ha_ttlock_ble.Base.{ℕ, ◌==◌, Bool, false, ◌||◌, Option, none, some, if◌then◌else◌}
use ha_ttlock_ble.Base.Int.{ℤ, pos, negsuc}
use ha_ttlock_ble.Base.Codes.{Text}
use ha_ttlock_ble.Base.Errors.{
  ApiError, authentication, communication, verification_required, api_client_error, api, other,
}
use ha_ttlock_ble.Base.Exec.{Exec, pure, raise, gets, modify, ◌>>=◌, ◌>>◌}

-- The fields of a `CloudError`'s body that are read.
pub record Body : Type 0 where
  pub http_status : Option ℤ
  pub error_code : Option ℤ
  pub errcode : Option ℤ

-- How a call of the SDK's cloud ends.
pub data Reply (A : Type 0) : Type 0 where
  replied : A → Reply A
  cloud_error : Body → Reply A
  http_error : Reply A
  crashed : Reply A

abbrev pub is_int : ℕ → ℤ → Bool
is_int n (pos m) = n == m
is_int n (negsuc m) = false

abbrev pub is_unauthorized : ℤ → Bool
is_unauthorized status = is_int 401 status || is_int 403 status

abbrev pub is_new_device : ℤ → Bool
is_new_device (pos n) = false
is_new_device (negsuc n) = n == 1013

-- `a or b` of two codes: zero counts as absent
abbrev pub code_or : Option ℤ → Option ℤ → Option ℤ
code_or none b = b
code_or (some a) b = if is_int 0 a then b else some a

abbrev pub classify_code : Option ℤ → ApiError
classify_code none = api_client_error
classify_code (some c) = if is_new_device c then verification_required else authentication

abbrev pub classify_status : Option ℤ → ApiError → ApiError
classify_status none e = e
classify_status (some status) e = if is_unauthorized status then authentication else communication

-- `_classify_cloud_error`
unfoldable pub classify_cloud_error : Body → ApiError
classify_cloud_error b =
    classify_status b.http_status (classify_code (code_or b.error_code b.errcode))

-- the `except` clauses around a call
unfoldable pub answered : {A : Type 0} {S : Type 0} → Reply A → Exec S A
unfolding classify_cloud_error
answered (replied a) = pure a
answered (cloud_error b) = raise (api (classify_cloud_error b))
answered http_error = raise (api communication)
answered crashed = raise other

-- contextlib.suppress(CloudError)
abbrev pub suppressed : {S : Type 0} → Reply (Unit {0}) → Exec S (Unit {0})
suppressed (replied a) = pure tt
suppressed (cloud_error b) = pure tt
suppressed http_error = raise (api communication)
suppressed crashed = raise other

-- The SDK's cloud.
pub record Cloud (Key : Type 0) : Type 0 where
  pub discover_site : ℕ → Reply (Unit {0})
  pub login : (username password : Text) → ℕ → Reply (Unit {0})
  pub request_code : (account : Text) → ℕ → Reply (Unit {0})
  pub validate_new_device : (username code : Text) → ℕ → Reply (Unit {0})
  pub list_keys : ℕ → Reply Key

-- A caller counts the calls.
pub record Counter (S : Type 0) : Type 0 where
  pub calls : S → ℕ
  pub count_call : S → S

module _ {Key S : Type 0} (cloud : Cloud Key) (counter : Counter S) where
  -- one call: its number is that of the calls before it
  unfoldable pub call : {A : Type 0} → (ℕ → Exec S A) → Exec S A
  call k = do n ← gets counter.calls; modify counter.count_call; k n

  -- `async_login`
  unfoldable pub login : Text → Text → Exec S (Unit {0})
  login username password = do
    call (λ n. suppressed (cloud.discover_site n))
    call (λ n. answered (cloud.login username password n))

  -- `async_request_verification_code`
  unfoldable pub request_verification_code : Text → Exec S (Unit {0})
  request_verification_code account = call (λ n. answered (cloud.request_code account n))

  -- `async_validate_new_device_and_login`
  unfoldable pub validate_new_device_and_login : Text → Text → Text → Exec S (Unit {0})
  validate_new_device_and_login username password code = do
    call (λ n. answered (cloud.validate_new_device username code n))
    call (λ n. answered (cloud.login username password n))

  -- `async_list_keys`
  unfoldable pub list_keys : Exec S Key
  list_keys = call (λ n. answered (cloud.list_keys n))
