-- ===== src/UserStore.antt =====
-- src/database/prisma/prisma-user.repository.ts and prisma-wallet.repository.ts. Users have unique
-- `id`, `email` and `username`, wallets a unique `id` and `userId` (prisma/schema).
use prestohq_assessment.Prelude.{
  ℕ, ◌+◌, String, Bool, ◌||◌, Option, none, some, if◌then◌else◌, is_some, or_else, str_eq, find,
  update, append_row,
}
use prestohq_assessment.Errors.{unique_violation, record_missing}
use prestohq_assessment.Db.{State, UserEntity, WalletEntity, active}
use prestohq_assessment.Exec.{Action, ok, err, gets}
use prestohq_assessment.Journal.{wallet_by_id}

pub record CreateUserData : Type 0 where
  pub email : String
  pub username : String
  pub first_name : String
  pub last_name : String
  pub password_hash : String
  pub currency : Option String

pub record CreateUserWithWalletResult : Type 0 where
  pub user : UserEntity
  pub wallet_id : String

abbrev pub user_by_id : String → UserEntity → Bool
user_by_id id u = str_eq u.id id

abbrev pub user_by_email : String → UserEntity → Bool
user_by_email email u = str_eq u.email email

abbrev pub user_by_username : String → UserEntity → Bool
user_by_username username u = str_eq u.username username

abbrev pub wallet_by_user : String → WalletEntity → Bool
wallet_by_user user_id w = str_eq w.user_id user_id

abbrev pub find_user : String → Action (Option UserEntity)
find_user id = gets (λ s. find (user_by_id id) s.users)

abbrev pub find_by_email : String → Action (Option UserEntity)
find_by_email email = gets (λ s. find (user_by_email email) s.users)

abbrev pub find_by_username : String → Action (Option UserEntity)
find_by_username username = gets (λ s. find (user_by_username username) s.users)

-- `WalletRepository.findById`
abbrev pub find_wallet : String → Action (Option WalletEntity)
find_wallet id = gets (λ s. find (wallet_by_id id) s.wallets)

-- `WalletRepository.findByUserId`
abbrev pub find_wallet_by_user_id : String → Action (Option WalletEntity)
find_wallet_by_user_id user_id = gets (λ s. find (wallet_by_user user_id) s.wallets)

abbrev pub new_user : CreateUserData → State → UserEntity
new_user d s = record {
  id = s.cuid s.next_id;
  email = d.email;
  username = d.username;
  first_name = d.first_name;
  last_name = d.last_name;
  password_hash = d.password_hash;
  password_try_count = 0;
  password_locked_until = none;
  pin_hash = none;
  pin_try_count = 0;
  pin_locked_until = none;
  created_at = s.now;
}

abbrev pub new_wallet : CreateUserData → State → WalletEntity
new_wallet d s = record {
  id = s.cuid (s.next_id + 1);
  user_id = s.cuid s.next_id;
  currency = or_else d.currency "NGN";
  status = active;
  created_at = s.now;
}

-- A unique column of either new row is taken.
abbrev pub user_taken : CreateUserData → State → Bool
user_taken d s =
    is_some (find (user_by_email d.email) s.users)
    || is_some (find (user_by_username d.username) s.users)
    || is_some (find (user_by_id (s.cuid s.next_id)) s.users)
    || is_some (find (wallet_by_id (s.cuid (s.next_id + 1))) s.wallets)
    || is_some (find (wallet_by_user (s.cuid s.next_id)) s.wallets)

-- `createWithWallet`: both rows or none
unfoldable pub create_with_wallet : CreateUserData → Action CreateUserWithWalletResult
create_with_wallet d s = if user_taken d s then (err unique_violation, s) else (
  ok (record { user = new_user d s; wallet_id = (new_wallet d s).id }),
  record s {
    users = append_row s.users (new_user d s);
    wallets = append_row s.wallets (new_wallet d s);
    next_id = s.next_id + 2;
  },
)

-- `user.update` by identifier
unfoldable pub update_user : String → (UserEntity → UserEntity) → Action (Unit {0})
update_user id f s =
    if is_some (find (user_by_id id) s.users)
    then (ok tt, record s { users = update (user_by_id id) f s.users })
    else (err record_missing, s)

abbrev pub with_password_tries : ℕ → Option ℕ → UserEntity → UserEntity
with_password_tries attempts until u = record u {
  password_try_count = attempts;
  password_locked_until = until;
}

abbrev pub with_pin_tries : ℕ → Option ℕ → UserEntity → UserEntity
with_pin_tries attempts until u = record u { pin_try_count = attempts; pin_locked_until = until }

abbrev pub record_password_failure : String → ℕ → Option ℕ → Action (Unit {0})
record_password_failure id attempts until = update_user id (with_password_tries attempts until)

abbrev pub reset_password_failures : String → Action (Unit {0})
reset_password_failures id = update_user id (with_password_tries 0 none)

abbrev pub set_pin_hash : String → String → Action (Unit {0})
set_pin_hash id hash =
    update_user id
      (λ u. record u { pin_hash = some hash; pin_try_count = 0; pin_locked_until = none })

abbrev pub record_pin_failure : String → ℕ → Option ℕ → Action (Unit {0})
record_pin_failure id attempts until = update_user id (with_pin_tries attempts until)

abbrev pub reset_pin_failures : String → Action (Unit {0})
reset_pin_failures id = update_user id (with_pin_tries 0 none)
