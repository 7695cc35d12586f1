-- ===== src/Auth/Lockout.antt =====
-- What a PIN attempt does, and that three wrong ones lock the PIN: `verifyPinOrThrow` of
-- src/modules/auth/services/auth-credential.service.ts.
use mathlib.Core.Path.{subst}
use prestohq_assessment.Prelude.{
  ℕ, ◌+◌, ◌<◌, String, ◌≡◌, refl, sym, true, false, Option, none, some, find, update, arith,
  eq_refl, find-update_self,
}
use prestohq_assessment.Db.{State, UserEntity}
use prestohq_assessment.Errors.{Error}
use prestohq_assessment.Exec.{ok, err}
use prestohq_assessment.UserStore.{user_by_id, update_user, with_pin_tries}
use prestohq_assessment.Environment.{Environment}
use prestohq_assessment.Auth.Credential.{
  auth_lock_ms, present, lapsed, holds, lock_until_if_maxed, too_many_attempts, invalid_pin,
  verify_pin_or_throw,
}

-- The row of a user, found by its identifier, with a PIN whose stored hash is the text given.
pub record HasPin (s : State) (u : UserEntity) (hash : String) : Type 0 where
  pub stored : find (user_by_id u.id) s.users ≡ some u
  pub set : present u.pin_hash ≡ some hash

-- The row of a user as it is after an update by its identifier
pub update_user_known :
    (s : State) (u : UserEntity) (f : UserEntity → UserEntity)
    → find (user_by_id u.id) s.users ≡ some u
    → update_user u.id f s ≡ (ok tt, record s { users = update (user_by_id u.id) f s.users })
unfolding update_user
update_user_known s u f stored = rw stored

unfoldable pub with_tries : ℕ → Option ℕ → UserEntity → State → State
with_tries attempts until u s = record s {
  users = update (user_by_id u.id) (with_pin_tries attempts until) s.users;
}

pub with_tries-HasPin :
    (s : State) (u : UserEntity) (hash : String) (n : ℕ) (t : Option ℕ)
    → HasPin s u hash
    → HasPin (with_tries n t u s) (with_pin_tries n t u) hash
unfolding with_tries
with_tries-HasPin s u hash n t h = record {
  stored =
      find-update_self (user_by_id u.id) (with_pin_tries n t) s.users u h.stored (eq_refl u.id);
  set = h.set;
}

module _ (env : Environment) (s : State) (u : UserEntity) (hash pin : String)
    (h : HasPin s u hash) where
  -- A PIN that is locked until a later time refuses every attempt, the right PIN as well, with the time
  -- that is left, and the state stays as it is.
  verify_pin_locked :
      holds u.pin_locked_until s.now ≡ true
      → lapsed u.pin_locked_until s.now ≡ false
      → verify_pin_or_throw env u.id pin s ≡ (err (too_many_attempts u.pin_locked_until s.now), s)
  unfolding verify_pin_or_throw
  verify_pin_locked locked still = rw (h.stored, h.set, still, locked)

  -- An attempt that answers with an error and leaves the user's row with this count and this lock
  abbrev pub Fails : Error → ℕ → Option ℕ → Type 0
  Fails e n t =
      (s' : State) × (verify_pin_or_throw env u.id pin s ≡ (err e, s'))
      × HasPin s' (with_pin_tries n t u) hash
      × (s'.now ≡ s.now)

  -- A wrong PIN of a user without a lock is answered with `Invalid PIN`; the user's stored count grows by
  -- one, and the stored lock is five minutes from now if that count is three or more, else none.
  wrong_pin_counts :
      lapsed u.pin_locked_until s.now ≡ false
      → holds u.pin_locked_until s.now ≡ false
      → env.bcrypt_compare pin hash ≡ false
      → Fails invalid_pin (u.pin_try_count + 1) (lock_until_if_maxed (u.pin_try_count + 1) s.now)
  unfolding verify_pin_or_throw with_tries
  wrong_pin_counts still free wrong = (
    with_tries (u.pin_try_count + 1) (lock_until_if_maxed (u.pin_try_count + 1) s.now) u s,
    rw (
      h.stored,
      h.set,
      still,
      free,
      wrong,
      update_user_known s u
          (with_pin_tries (u.pin_try_count + 1) (lock_until_if_maxed (u.pin_try_count + 1) s.now))
          h.stored,
    ),
    with_tries-HasPin s u hash _ _ h,
    refl,
  )

abbrev pub wait : ℕ → State → State
wait milliseconds s = record s { now = s.now + milliseconds }

-- The state after an attempt, some time later
abbrev pub attempt : Environment → String → ℕ → String → State → State
attempt env id milliseconds pin s = (verify_pin_or_throw env id pin (wait milliseconds s)).1

wait-HasPin :
    (s : State) (u : UserEntity) (hash : String) (d : ℕ)
    → HasPin s u hash
    → HasPin (wait d s) u hash
wait-HasPin s u hash d h = record { stored = h.stored; set = h.set }

module _ (env : Environment) (u : UserEntity) (hash : String) where
  -- One more wrong PIN, of a user who is not locked
  next_wrong :
      (s : State) (n d : ℕ) (pin : String)
      → HasPin s (with_pin_tries n none u) hash
      → env.bcrypt_compare pin hash ≡ false
      → HasPin
          (attempt env u.id d pin s)
          (with_pin_tries (n + 1) (lock_until_if_maxed (n + 1) (s.now + d)) u)
          hash
        × ((attempt env u.id d pin s).now ≡ s.now + d)
  next_wrong s n d pin h wrong =
      let (s', failed, after, same) =
        wrong_pin_counts env (wait d s) (with_pin_tries n none u) hash pin
          (wait-HasPin s (with_pin_tries n none u) hash d h) refl refl wrong in
      subst
        (λ x.
          HasPin x.1 (with_pin_tries (n + 1) (lock_until_if_maxed (n + 1) (s.now + d)) u) hash
          × (x.1.now ≡ s.now + d))
        (sym failed) (after, same)

  -- For a stored user with a PIN, no counted attempts and no lock, three wrong PINs in a row, whatever
  -- the time between them, lock the PIN: any attempt less than five minutes after the third is refused,
  -- the right PIN as well, and leaves the state as it is.
  pub three_wrong_pins_lock :
      (s : State) (a b c d : ℕ) (first second third fourth : String)
      → HasPin s (with_pin_tries 0 none u) hash
      → env.bcrypt_compare first hash ≡ false
      → env.bcrypt_compare second hash ≡ false
      → env.bcrypt_compare third hash ≡ false
      → d < auth_lock_ms
      → let s' =
          attempt env u.id c third (attempt env u.id b second (attempt env u.id a first s)) in
        verify_pin_or_throw env u.id fourth (wait d s')
        ≡ (err (too_many_attempts (some (s'.now + auth_lock_ms)) (s'.now + d)), wait d s')
  three_wrong_pins_lock s a b c d first second third fourth h w1 w2 w3 soon =
      let one = next_wrong s 0 a first h w1 in
      let two = next_wrong (attempt env u.id a first s) 1 b second one.0 w2 in
      let s2 = attempt env u.id b second (attempt env u.id a first s) in
      let three = next_wrong s2 2 c third two.0 w3 in
      let s3 = attempt env u.id c third s2 in
      let locked : UserEntity = with_pin_tries 3 (some (s3.now + auth_lock_ms)) u in
      let held : HasPin s3 locked hash =
        subst (λ t. HasPin s3 (with_pin_tries 3 (some (t + auth_lock_ms)) u) hash) (sym three.1)
          three.0 in
      verify_pin_locked env (wait d s3) locked hash fourth (wait-HasPin s3 locked hash d held)
        (ground (arith, soon)) (ground (arith, soon))
