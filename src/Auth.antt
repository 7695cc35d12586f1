-- ===== src/Auth.antt =====
-- src/modules/auth/services: credentials with their lockout, registration, login, the PIN.
pub mod Credential
pub mod Lockout
pub mod Machine
use prestohq_assessment.Prelude.{
  String, Bool, not, ◌||◌, Option, none, some, is_some, str_eq, if◌then◌else◌,
}
use prestohq_assessment.Prelude.Text.{trim, to_lower_case, truthy}
use prestohq_assessment.Errors.{
  Error, custom_error, bad_request, unauthorized, conflict, internal_server_error,
}
use prestohq_assessment.Db.{UserEntity, WalletEntity}
use prestohq_assessment.Exec.{Action, pure, raise_if, or_raise, ◌>>=◌, ◌>>◌, Response}
use prestohq_assessment.UserStore.{
  CreateUserData, CreateUserWithWalletResult, find_user, find_by_email, find_by_username,
  find_wallet_by_user_id, create_with_wallet, set_pin_hash,
}
use prestohq_assessment.Environment.{Environment, Actor}
use prestohq_assessment.Auth.Credential.{
  verify_password_or_throw, verify_pin_or_throw, present, user_not_found,
}

pub record RegisterDto : Type 0 where
  pub email : String
  pub username : String
  pub first_name : String
  pub last_name : String
  pub password : String
  pub confirm_password : String

pub record LoginDto : Type 0 where
  pub email : String
  pub password : String

pub record CreatePinDto : Type 0 where
  pub pin : String
  pub confirm_pin : String
  pub password : String

-- What the answers show of a user.
pub record UserView : Type 0 where
  pub id : String
  pub email : String
  pub username : String
  pub first_name : String
  pub last_name : String

pub record SessionView : Type 0 where
  pub user : UserView
  pub wallet_id : Option String
  pub has_pin : Option Bool
  pub access_token : Option String

abbrev user_view : UserEntity → UserView
user_view u = record {
  id = u.id;
  email = u.email;
  username = u.username;
  first_name = u.first_name;
  last_name = u.last_name;
}

abbrev pub new_user_data : Environment → RegisterDto → CreateUserData
new_user_data env dto = record {
  email = to_lower_case (trim dto.email);
  username = to_lower_case (trim dto.username);
  first_name = trim dto.first_name;
  last_name = trim dto.last_name;
  password_hash = env.bcrypt_hash dto.password;
  currency = none;
}

-- `AuthRegisterService.register`
unfoldable pub register : Environment → RegisterDto → Action (Response SessionView)
register env dto = do
  raise_if (not (str_eq dto.password dto.confirm_password))
      (custom_error bad_request "password and confirmPassword do not match")
  raise_if (not (truthy (trim dto.first_name)) || not (truthy (trim dto.last_name)))
      (custom_error bad_request "firstName and lastName are required")
  same_email ← find_by_email (to_lower_case (trim dto.email))
  raise_if (is_some same_email) (custom_error conflict "Email is already registered")
  same_name ← find_by_username (to_lower_case (trim dto.username))
  raise_if (is_some same_name) (custom_error conflict "Username is already taken")
  created ← create_with_wallet (new_user_data env dto)
  pure (record {
    message = "Account created successfully";
    body = record {
      user = user_view created.user;
      wallet_id = none;
      has_pin = none;
      access_token = some (env.sign_access_token created.user);
    };
  })

abbrev pub invalid_credentials : String
invalid_credentials = "Invalid credentials"

abbrev pub wallet_missing_for_user : Error
wallet_missing_for_user = custom_error internal_server_error "Wallet missing for user"

-- `AuthLoginService.login`
unfoldable pub login : Environment → LoginDto → Action (Response SessionView)
login env dto = do
  found ← find_by_email (to_lower_case (trim dto.email))
  user ← or_raise found (custom_error unauthorized invalid_credentials)
  verify_password_or_throw env user dto.password invalid_credentials
  owned ← find_wallet_by_user_id user.id
  wallet ← or_raise owned wallet_missing_for_user
  pure (record {
    message = "Login successful";
    body = record {
      user = user_view user;
      wallet_id = some wallet.id;
      has_pin = some (is_some (present user.pin_hash));
      access_token = some (env.sign_access_token user);
    };
  })

-- `AuthCreatePinService.create`
unfoldable pub create_pin : Environment → Actor → CreatePinDto → Action (Response (Unit {0}))
create_pin env actor dto = do
  raise_if (not (str_eq dto.pin dto.confirm_pin))
      (custom_error bad_request "pin and confirmPin do not match")
  found ← find_user actor.user_id
  user ← or_raise found user_not_found
  raise_if (is_some (present user.pin_hash)) (custom_error conflict "PIN is already set")
  verify_password_or_throw env user dto.password invalid_credentials
  set_pin_hash user.id (env.bcrypt_hash dto.pin)
  pure (record { message = "PIN created successfully"; body = tt })

-- `AuthService.verifyPin`
abbrev pub verify_pin : Environment → String → String → Action (Unit {0})
verify_pin env user_id pin = verify_pin_or_throw env user_id pin

-- `AuthService.me`
unfoldable pub me : Actor → Action (Response SessionView)
me actor = do
  found ← find_user actor.user_id
  user ← or_raise found user_not_found
  owned ← find_wallet_by_user_id user.id
  wallet ← or_raise owned wallet_missing_for_user
  pure (record {
    message = "Current user retrieved successfully";
    body = record {
      user = user_view user;
      wallet_id = some wallet.id;
      has_pin = some (is_some (present user.pin_hash));
      access_token = none;
    };
  })
