-- ===== src/Auth/Credential.antt =====
-- src/modules/auth/services/auth-credential.service.ts and src/modules/auth/auth.constants.ts: three
-- wrong passwords, or three wrong PINs, lock that credential for five minutes.
use Prim.Native.Nat.{◌/◌}
use Prim.Native.String.{◌++◌}
use prestohq_assessment.Prelude.{
  ℕ, ◌+◌, ◌-◌, String, Bool, true, false, ◌||◌, Option, none, some, ltb, leb, is_some,
  if◌then◌else◌,
}
use prestohq_assessment.Prelude.Text.{truthy, decimal}
use prestohq_assessment.Errors.{Error, custom_error, unauthorized, forbidden}
use prestohq_assessment.Db.{UserEntity}
use prestohq_assessment.Exec.{Action, raise, raise_if, gets, or_raise, when, ◌>>=◌, ◌>>◌}
use prestohq_assessment.UserStore.{
  find_user, record_password_failure, reset_password_failures, record_pin_failure,
  reset_pin_failures,
}
use prestohq_assessment.Environment.{Environment}

abbrev pub max_auth_tries : ℕ
max_auth_tries = 3

abbrev pub auth_lock_ms : ℕ
auth_lock_ms = 300000

abbrev pub user_not_found : Error
user_not_found = custom_error unauthorized "User not found"

abbrev pub pin_not_set : Error
pin_not_set = custom_error forbidden "you need to set up your transaction pin first"

abbrev pub invalid_pin : Error
invalid_pin = custom_error unauthorized "Invalid PIN"

-- A column of text as a condition: null and the empty text are falsy.
abbrev pub present : Option String → Option String
present none = none
present (some t) = if truthy t then some t else none

-- `lockedUntil && lockedUntil <= new Date()`
abbrev pub lapsed : Option ℕ → ℕ → Bool
lapsed none now = false
lapsed (some t) now = leb t now

-- `lockedUntil && lockedUntil > new Date()`
abbrev pub holds : Option ℕ → ℕ → Bool
holds none now = false
holds (some t) now = ltb now t

abbrev pub seconds_left : Option ℕ → ℕ → ℕ
seconds_left none now = 0
seconds_left (some t) now = (t - now + 999) / 1000

abbrev pub too_many_attempts : Option ℕ → ℕ → Error
too_many_attempts until now =
    custom_error unauthorized
      ("Too many attempts. Try again in " ++ decimal (seconds_left until now) ++ " seconds.")

-- `assertNotLocked`
abbrev pub assert_not_locked : Option ℕ → ℕ → Action (Unit {0})
assert_not_locked until now = raise_if (holds until now) (too_many_attempts until now)

-- `lockUntilIfMaxed`
abbrev pub lock_until_if_maxed : ℕ → ℕ → Option ℕ
lock_until_if_maxed attempts now =
    if leb max_auth_tries attempts then some (now + auth_lock_ms) else none

-- The two local assignments after a lapsed lock
abbrev pub tries_now : ℕ → Option ℕ → ℕ → ℕ
tries_now tries until now = if lapsed until now then 0 else tries

abbrev pub until_now : Option ℕ → ℕ → Option ℕ
until_now until now = if lapsed until now then none else until

abbrev pub check_password : Bool → String → ℕ → Option ℕ → ℕ → String → Action (Unit {0})
check_password true id tries until now text =
    when (ltb 0 tries || is_some until) (reset_password_failures id)
check_password false id tries until now text = do
  record_password_failure id (tries + 1) (lock_until_if_maxed (tries + 1) now)
  raise (custom_error unauthorized text)

-- `verifyPasswordOrThrow`
unfoldable pub verify_password_or_throw :
    Environment → UserEntity → String → String → Action (Unit {0})
verify_password_or_throw env user password text = do
  now ← gets (λ s. s.now)
  when (lapsed user.password_locked_until now) (reset_password_failures user.id)
  assert_not_locked (until_now user.password_locked_until now) now
  check_password (env.bcrypt_compare password user.password_hash) user.id
      (tries_now user.password_try_count user.password_locked_until now)
      (until_now user.password_locked_until now) now text

abbrev pub check_pin : Bool → String → ℕ → Option ℕ → ℕ → Action (Unit {0})
check_pin true id tries until now = when (ltb 0 tries || is_some until) (reset_pin_failures id)
check_pin false id tries until now = do
  record_pin_failure id (tries + 1) (lock_until_if_maxed (tries + 1) now)
  raise invalid_pin

-- `verifyPinOrThrow`, from the stored hash on
abbrev pub check_user : Environment → UserEntity → String → String → Action (Unit {0})
check_user env user hash pin = do
  now ← gets (λ s. s.now)
  when (lapsed user.pin_locked_until now) (reset_pin_failures user.id)
  assert_not_locked (until_now user.pin_locked_until now) now
  check_pin (env.bcrypt_compare pin hash) user.id
      (tries_now user.pin_try_count user.pin_locked_until now) (until_now user.pin_locked_until now)
      now

-- `verifyPinOrThrow`
unfoldable pub verify_pin_or_throw : Environment → String → String → Action (Unit {0})
verify_pin_or_throw env user_id pin = do
  found ← find_user user_id
  user ← or_raise found user_not_found
  hash ← or_raise (present user.pin_hash) pin_not_set
  check_user env user hash pin
