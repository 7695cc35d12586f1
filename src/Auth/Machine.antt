-- ===== src/Auth/Machine.antt =====
-- The lock of a credential as a small machine, and `verifyPinOrThrow` of
-- src/modules/auth/services/auth-credential.service.ts as its implementation over two columns.
use prestohq_assessment.Prelude.{
  ℕ, ◌+◌, String, ◌≡◌, refl, inl, inr, Bool, true, false, Option, none, some, ltb, leb,
  if◌then◌else◌, arith, Bool-cases, Option-cases,
}
use prestohq_assessment.Db.{State, UserEntity}
use prestohq_assessment.Exec.{Result, ok, err}
use prestohq_assessment.UserStore.{with_pin_tries}
use prestohq_assessment.Environment.{Environment}
use prestohq_assessment.Auth.Credential.{
  too_many_attempts, invalid_pin, verify_pin_or_throw, lock_until_if_maxed,
}
use prestohq_assessment.Auth.Lockout.{HasPin, with_tries, with_tries-HasPin, update_user_known}

-- A lock that is open after some wrong tries, or shut until a time
pub data Lock : Type 0 where
  open_after : ℕ → Lock
  shut_until : ℕ → Lock

pub data Verdict : Type 0 where
  accepted wrong : Verdict
  refused_until : ℕ → Verdict

-- The third wrong try in a row shuts the lock for five minutes; a right one forgets the wrong ones.
unfoldable pub try_open : Bool → ℕ → ℕ → Verdict × Lock
try_open true n now = (accepted, open_after 0)
try_open false n now = (wrong, if ltb n 2 then open_after (n + 1) else shut_until (now + 300000))

-- A shut lock refuses every try until its time has come, and is then as good as new.
unfoldable pub try_lock : Bool → Lock → ℕ → Verdict × Lock
unfolding try_open
try_lock right (open_after n) now = try_open right n now
try_lock right (shut_until t) now =
    if ltb now t then (refused_until t, shut_until t) else try_open right 0 now

-- How the two columns stand for a lock, and what the call answers for a verdict
unfoldable pub lock_of : ℕ → Option ℕ → Lock
lock_of n none = open_after n
lock_of n (some t) = shut_until t

unfoldable pub answer : Verdict → ℕ → Result (Unit {0})
answer accepted now = ok tt
answer wrong now = err invalid_pin
answer (refused_until t) now = err (too_many_attempts (some t) now)

module _ (env : Environment) (s : State) (u : UserEntity) (hash pin : String) where
  abbrev tried : Verdict × Lock
  tried = try_lock (env.bcrypt_compare pin hash) (lock_of u.pin_try_count u.pin_locked_until) s.now

  -- The call answers as the machine does, and leaves the user's row with columns that stand for the
  -- machine's next lock.
  pub record Implements : Type 0 where
    pub next : State
    pub row : UserEntity
    pub answered : verify_pin_or_throw env u.id pin s ≡ (answer tried.0 s.now, next)
    pub same_user : row.id ≡ u.id
    pub stored : HasPin next row hash
    pub stands_for : lock_of row.pin_try_count row.pin_locked_until ≡ tried.1
    pub same_time : next.now ≡ s.now

  module _ (h : HasPin s u hash) where
    refused-Implements : (t : ℕ) → u.pin_locked_until ≡ some t → ltb s.now t ≡ true → Implements
    unfolding verify_pin_or_throw try_lock lock_of answer
    refused-Implements t until later = record {
      next = s;
      row = u;
      answered =
          let still : leb t s.now ≡ false = ground (arith, later) in
          simp (h.stored, h.set, until, still, later);
      same_user = refl;
      stored = h;
      stands_for = rw (until, later);
      same_time = refl;
    }

    -- The row after an update of the columns, of the same user
    written :
        (n : ℕ) (until : Option ℕ)
        → verify_pin_or_throw env u.id pin s ≡ (answer tried.0 s.now, with_tries n until u s)
        → lock_of n until ≡ tried.1
        → Implements
    unfolding with_tries
    written n until answered stands_for = record {
      next = with_tries n until u s;
      row = with_pin_tries n until u;
      answered = answered;
      same_user = refl;
      stored = with_tries-HasPin s u hash n until h;
      stands_for = stands_for;
      same_time = refl;
    }

    right_open : u.pin_locked_until ≡ none → env.bcrypt_compare pin hash ≡ true → Implements
    unfolding verify_pin_or_throw try_lock try_open lock_of answer with_tries
    right_open open_lock right = elim (Bool-cases (ltb 0 u.pin_try_count)) [
      | inl some_wrong ↦
          written 0 none
            (simp (
              h.stored,
              h.set,
              open_lock,
              right,
              some_wrong,
              update_user_known s u (with_pin_tries 0 none) h.stored,
            ))
            (simp (open_lock, right))
      | inr none_wrong ↦ record {
        next = s;
        row = u;
        answered = simp (h.stored, h.set, open_lock, right, none_wrong);
        same_user = refl;
        stored = h;
        stands_for =
            let count : u.pin_try_count ≡ 0 = ground (arith, none_wrong) in
            simp (open_lock, right, count);
        same_time = refl;
      }
    ]

    next_count :
        u.pin_locked_until ≡ none
        → env.bcrypt_compare pin hash ≡ false
        → lock_of (u.pin_try_count + 1) (lock_until_if_maxed (u.pin_try_count + 1) s.now) ≡ tried.1
    unfolding try_lock try_open lock_of
    next_count open_lock wrong_pin = elim (Bool-cases (ltb u.pin_try_count 2)) [
      | inl few ↦
          let not_maxed : leb 3 (u.pin_try_count + 1) ≡ false = ground (arith, few) in
          simp (open_lock, wrong_pin, few, not_maxed)
      | inr many ↦
          let maxed : leb 3 (u.pin_try_count + 1) ≡ true = ground (arith, many) in
          simp (open_lock, wrong_pin, many, maxed)
    ]

    wrong_open : u.pin_locked_until ≡ none → env.bcrypt_compare pin hash ≡ false → Implements
    unfolding verify_pin_or_throw try_lock try_open lock_of answer with_tries
    wrong_open open_lock wrong_pin =
        written (u.pin_try_count + 1) (lock_until_if_maxed (u.pin_try_count + 1) s.now)
          (simp (
            h.stored,
            h.set,
            open_lock,
            wrong_pin,
            update_user_known s u
                (with_pin_tries (u.pin_try_count + 1)
                  (lock_until_if_maxed (u.pin_try_count + 1) s.now))
                h.stored,
          ))
          (next_count open_lock wrong_pin)

    right_lapsed :
        (t : ℕ)
        → u.pin_locked_until ≡ some t
        → ltb s.now t ≡ false
        → env.bcrypt_compare pin hash ≡ true
        → Implements
    unfolding verify_pin_or_throw try_lock try_open lock_of answer with_tries
    right_lapsed t until over right =
        let past : leb t s.now ≡ true = ground (arith, over) in
        written 0 none
          (simp (
            h.stored,
            h.set,
            until,
            past,
            over,
            right,
            update_user_known s u (with_pin_tries 0 none) h.stored,
          ))
          (simp (until, over, right))

    wrong_lapsed :
        (t : ℕ)
        → u.pin_locked_until ≡ some t
        → ltb s.now t ≡ false
        → env.bcrypt_compare pin hash ≡ false
        → Implements
    unfolding verify_pin_or_throw try_lock try_open lock_of answer with_tries
    wrong_lapsed t until over wrong_pin =
        let past : leb t s.now ≡ true = ground (arith, over) in
        let reset : HasPin (with_tries 0 none u s) (with_pin_tries 0 none u) hash =
          with_tries-HasPin s u hash 0 none h in
        record {
          next = with_tries 1 none u (with_tries 0 none u s);
          row = with_pin_tries 1 none u;
          answered = simp (
            h.stored,
            h.set,
            until,
            past,
            over,
            wrong_pin,
            update_user_known s u (with_pin_tries 0 none) h.stored,
            update_user_known (with_tries 0 none u s) (with_pin_tries 0 none u)
                (with_pin_tries 1 none) reset.stored,
          );
          same_user = refl;
          stored =
              with_tries-HasPin (with_tries 0 none u s) (with_pin_tries 0 none u) hash 1 none reset;
          stands_for = simp (until, over, wrong_pin);
          same_time = refl;
        }

-- For a stored user with a PIN, whatever the two columns hold, an attempt answers and leaves the columns as
-- the lock machine does: a shut lock refuses the right PIN too, the third wrong one in a row shuts it for
-- five minutes, a right one or the end of that time makes it as good as new.
pub verify_pin-Implements :
    (env : Environment) (s : State) (u : UserEntity) (hash pin : String)
    → HasPin s u hash
    → Implements env s u hash pin
verify_pin-Implements env s u hash pin h =
    let compared = Bool-cases (env.bcrypt_compare pin hash) in
    elim (Option-cases u.pin_locked_until) [
      | inl open_lock ↦ elim compared [
        | inl right ↦ right_open env s u hash pin h open_lock right
        | inr wrong_pin ↦ wrong_open env s u hash pin h open_lock wrong_pin
      ]
      | inr (t, until) ↦ elim (Bool-cases (ltb s.now t)) [
        | inl later ↦ refused-Implements env s u hash pin h t until later
        | inr over ↦ elim compared [
          | inl right ↦ right_lapsed env s u hash pin h t until over right
          | inr wrong_pin ↦ wrong_lapsed env s u hash pin h t until over wrong_pin
        ]
      ]
    ]
