-- ===== src/Http/Session.antt =====
-- Access tokens: src/modules/auth/services/auth-token.service.ts, and the strategy and guard of
-- src/core/security. The signing and checking of tokens is the library's, which is a parameter.
use prestohq_assessment.Prelude.{String, ◌≡◌, Bool, ◌||◌, Option, none, some, is_some}
use prestohq_assessment.Db.{UserEntity}
use prestohq_assessment.Environment.{Actor}

pub record AccessTokenPayload : Type 0 where
  pub sub : String
  pub email : String
  pub username : String

-- `JwtService` with the configured secret: a token that is valid gives its payload.
pub record JwtService : Type 0 where
  pub sign : AccessTokenPayload → String
  pub verify : String → Option AccessTokenPayload

-- `signAccessToken`
unfoldable pub sign_access_token : JwtService → UserEntity → String
sign_access_token jwt user =
    jwt.sign (record { sub = user.id; email = user.email; username = user.username })

-- `validate`
abbrev pub validate : AccessTokenPayload → Actor
validate payload = record {
  user_id = payload.sub;
  email = payload.email;
  username = payload.username;
}

abbrev pub acting : Option AccessTokenPayload → Option Actor
acting none = none
acting (some p) = some (validate p)

-- Who a request acts for, by the bearer token of its header
unfoldable pub authenticate : JwtService → Option String → Option Actor
authenticate jwt none = none
authenticate jwt (some token) = acting (jwt.verify token)

-- `canActivate`: a public route asks for no token.
unfoldable pub can_activate : JwtService → (is_public : Bool) → Option String → Bool
can_activate jwt is_public header = is_public || is_some (authenticate jwt header)

-- A token that was issued for a user lets a request act for that user, when the library gives back what it
-- signed.
pub authenticate-sign_access_token :
    (jwt : JwtService) (user : UserEntity)
    → ((p : AccessTokenPayload) → jwt.verify (jwt.sign p) ≡ some p)
    → authenticate jwt (some (sign_access_token jwt user))
      ≡ some (record { user_id = user.id; email = user.email; username = user.username })
unfolding authenticate sign_access_token
authenticate-sign_access_token jwt user law =
    rw (law (record { sub = user.id; email = user.email; username = user.username }))
