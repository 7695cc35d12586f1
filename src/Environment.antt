-- ===== src/Environment.antt =====
-- What the services call and the repository does not contain: SHA-256 over the JSON text of a request
-- body, bcrypt, the signing of tokens, the configured return address.
use prestohq_assessment.Prelude.{ℕ, String, Bool, Option}
use prestohq_assessment.Db.{UserEntity}

-- The objects that the services hash.
pub data Body : Type 0 where
  transfer_body : (amount : ℕ) (currency : String) → Body
  wallet_body : (recipient_username : String) (amount : ℕ) (currency : String) → Body
  bank_body :
      (bank_code account_number account_name : String) (amount : ℕ) (currency : String) → Body

pub record Environment : Type 0 where
  pub hash_request_body : Body → String
  pub bcrypt_compare : String → String → Bool
  pub bcrypt_hash : String → String
  pub sign_access_token : UserEntity → String
  pub redirect_url : Option String

-- `JwtPayloadUser` of src/core/security/decorators/current-user.decorator.ts
pub record Actor : Type 0 where
  pub user_id : String
  pub email : String
  pub username : String
