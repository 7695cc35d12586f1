-- ===== src/System/Accounts.antt =====
-- Registration, login and the PIN leave the journal sound.
use prestohq_assessment.Prelude.{
  List, String, ℕ, ◌+◌, Bool, true, false, not, Option, ltb, is_some, ◌||◌, find, str_eq,
}
use prestohq_assessment.Prelude.Text.{truthy, trim, to_lower_case}
use prestohq_assessment.Db.{WithdrawalEntity, UserEntity}
use prestohq_assessment.Exec.{when}
use prestohq_assessment.Keeping.{
  Keeps, bind-Keeps, then-Keeps, when-Keeps, guard-Keeps, require-Keeps,
}
use prestohq_assessment.Journal.{Rows}
use prestohq_assessment.Journal.Balance.{InTables}
use prestohq_assessment.UserStore.{
  user_by_id, user_by_email, user_by_username, wallet_by_user, create_with_wallet,
  record_password_failure, reset_password_failures, record_pin_failure, reset_pin_failures,
  set_pin_hash,
}
use prestohq_assessment.Environment.{Environment, Actor}
use prestohq_assessment.Auth.{
  RegisterDto, LoginDto, CreatePinDto, new_user_data, invalid_credentials, register, login,
  create_pin,
}
use prestohq_assessment.Auth.Credential.{
  check_password, verify_password_or_throw, check_pin, check_user, verify_pin_or_throw,
  lock_until_if_maxed, present, lapsed, holds, until_now,
}
use prestohq_assessment.System.Stores.{create_with_wallet-Keeps, update_user-Keeps}

module _ (Q : Rows → List WithdrawalEntity → Type 0) where
  check_password-Keeps :
      (b : Bool) (id : String) (tries : ℕ) (until : Option ℕ) (now : ℕ) (text : String)
      → Keeps (InTables Q) (check_password b id tries until now text)
  check_password-Keeps true id tries until now text =
      when-Keeps (InTables Q) (ltb 0 tries || is_some until) (reset_password_failures id)
        (update_user-Keeps Q id _)
  check_password-Keeps false id tries until now text =
      then-Keeps (InTables Q)
        (record_password_failure id (tries + 1) (lock_until_if_maxed (tries + 1) now)) _
        (update_user-Keeps Q id _) (λ s h. h)

  check_pin-Keeps :
      (b : Bool) (id : String) (tries : ℕ) (until : Option ℕ) (now : ℕ)
      → Keeps (InTables Q) (check_pin b id tries until now)
  check_pin-Keeps true id tries until now =
      when-Keeps (InTables Q) (ltb 0 tries || is_some until) (reset_pin_failures id)
        (update_user-Keeps Q id _)
  check_pin-Keeps false id tries until now =
      then-Keeps (InTables Q)
        (record_pin_failure id (tries + 1) (lock_until_if_maxed (tries + 1) now)) _
        (update_user-Keeps Q id _) (λ s h. h)

  verify_password-Keeps :
      (env : Environment) (u : UserEntity) (password text : String)
      → Keeps (InTables Q) (verify_password_or_throw env u password text)
  unfolding verify_password_or_throw
  verify_password-Keeps env u password text s h =
      then-Keeps (InTables Q)
        (when (lapsed u.password_locked_until s.now) (reset_password_failures u.id)) _
        (when-Keeps (InTables Q) (lapsed u.password_locked_until s.now)
          (reset_password_failures u.id) (update_user-Keeps Q u.id _))
        (guard-Keeps (InTables Q) (holds (until_now u.password_locked_until s.now) s.now) _ _
          (check_password-Keeps (env.bcrypt_compare password u.password_hash) u.id _ _ s.now text))
        s h

  check_user-Keeps :
      (env : Environment) (u : UserEntity) (hash pin : String)
      → Keeps (InTables Q) (check_user env u hash pin)
  check_user-Keeps env u hash pin s h =
      then-Keeps (InTables Q) (when (lapsed u.pin_locked_until s.now) (reset_pin_failures u.id)) _
        (when-Keeps (InTables Q) (lapsed u.pin_locked_until s.now) (reset_pin_failures u.id)
          (update_user-Keeps Q u.id _))
        (guard-Keeps (InTables Q) (holds (until_now u.pin_locked_until s.now) s.now) _ _
          (check_pin-Keeps (env.bcrypt_compare pin hash) u.id _ _ s.now))
        s h

  pub verify_pin-Keeps :
      (env : Environment) (user_id pin : String)
      → Keeps (InTables Q) (verify_pin_or_throw env user_id pin)
  unfolding verify_pin_or_throw
  verify_pin-Keeps env user_id pin s h =
      require-Keeps (InTables Q) (find (user_by_id user_id) s.users) _ _
        (λ u.
          require-Keeps (InTables Q) (present u.pin_hash) _ _
            (λ hash. check_user-Keeps env u hash pin))
        s h

  pub register-Keeps :
      (env : Environment) (dto : RegisterDto) → Keeps (InTables Q) (register env dto)
  unfolding register
  register-Keeps env dto =
      guard-Keeps (InTables Q) (not (str_eq dto.password dto.confirm_password)) _ _ (
        guard-Keeps (InTables Q)
          (not (truthy (trim dto.first_name)) || not (truthy (trim dto.last_name))) _ _
          (λ s h.
            guard-Keeps (InTables Q)
              (is_some (find (user_by_email (to_lower_case (trim dto.email))) s.users)) _ _
              (λ s' h'.
                guard-Keeps (InTables Q)
                  (is_some (find (user_by_username (to_lower_case (trim dto.username))) s'.users)) _
                  _
                  (bind-Keeps (InTables Q) (create_with_wallet (new_user_data env dto)) _
                    (create_with_wallet-Keeps Q (new_user_data env dto)) (λ created s h. h))
                  s' h')
              s h))

  pub login-Keeps : (env : Environment) (dto : LoginDto) → Keeps (InTables Q) (login env dto)
  unfolding login
  login-Keeps env dto s h =
      require-Keeps (InTables Q) (find (user_by_email (to_lower_case (trim dto.email))) s.users) _ _
        (λ u.
          then-Keeps (InTables Q) (verify_password_or_throw env u dto.password invalid_credentials)
            _ (verify_password-Keeps env u dto.password invalid_credentials)
            (λ s' h'.
              require-Keeps (InTables Q) (find (wallet_by_user u.id) s'.wallets) _ _ (λ w s h. h) s'
                h'))
        s h

  pub create_pin-Keeps :
      (env : Environment) (actor : Actor) (dto : CreatePinDto)
      → Keeps (InTables Q) (create_pin env actor dto)
  unfolding create_pin
  create_pin-Keeps env actor dto =
      guard-Keeps (InTables Q) (not (str_eq dto.pin dto.confirm_pin)) _ _ (λ s h.
        require-Keeps (InTables Q) (find (user_by_id actor.user_id) s.users) _ _
          (λ u. guard-Keeps (InTables Q) (is_some (present u.pin_hash)) _ _ (
            then-Keeps (InTables Q)
              (verify_password_or_throw env u dto.password invalid_credentials) _
              (verify_password-Keeps env u dto.password invalid_credentials)
              (then-Keeps (InTables Q) (set_pin_hash u.id (env.bcrypt_hash dto.pin)) _
                (update_user-Keeps Q u.id _) (λ s h. h))))
          s h)
