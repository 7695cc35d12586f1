-- ===== src/Exec.antt =====
-- Asynchronous methods as actions on the state. A statement that throws keeps what was written before
-- it; a database transaction puts it back.
use prestohq_assessment.Prelude.{String, Bool, true, false, Option, none, some, if◌then◌else◌}
use prestohq_assessment.Errors.{Error}
use prestohq_assessment.Db.{State}

pub data Result (A : Type 0) : Type 0 where
  ok : A → Result A
  err : Error → Result A

abbrev pub Action : Type 0 → Type 0
Action A = State → Result A × State

module _ {A : Type 0} where
  abbrev pub pure : A → Action A
  pure a s = (ok a, s)

  abbrev pub raise : Error → Action A
  raise e s = (err e, s)

  abbrev pub gets : (State → A) → Action A
  gets f s = (ok (f s), s)

  abbrev pub lift : Result A → Action A
  lift r s = (r, s)

  -- A row that has to be there.
  abbrev pub or_raise : Option A → Error → Action A
  or_raise none e s = (err e, s)
  or_raise (some a) e s = (ok a, s)

abbrev pub modify : (State → State) → Action (Unit {0})
modify f s = (ok tt, f s)

abbrev pub raise_if : Bool → Error → Action (Unit {0})
raise_if c e s = (if c then err e else ok tt, s)

-- `if (c) await m`
abbrev pub when : Bool → Action (Unit {0}) → Action (Unit {0})
when true m = m
when false m = pure tt

abbrev pub continue : {A B : Type 0} → (A → Action B) → Result A × State → Result B × State
continue f (ok a, s) = f a s
continue f (err e, s) = (err e, s)

infixl 5 ◌>>=◌ ◌>>◌
abbrev pub ◌>>=◌ : {A B : Type 0} → Action A → (A → Action B) → Action B
◌>>=◌ m f s = continue f (m s)

abbrev pub ◌>>◌ : {A B : Type 0} → Action A → Action B → Action B
m >> k = m >>= λ _. k

abbrev pub settle : {A : Type 0} → State → Result A × State → Result A × State
settle s (ok a, s') = (ok a, s')
settle s (err e, s') = (err e, s)

-- `prisma.$transaction(body)`
abbrev pub transaction : {A : Type 0} → Action A → Action A
transaction m s = settle s (m s)

abbrev pub handle : {A : Type 0} → (Error → Error) → Result A × State → Result A × State
handle h (ok a, s) = (ok a, s)
handle h (err e, s) = (err (h e), s)

-- `try { body } catch (error) { throw h(error) }`
abbrev pub rethrow : {A : Type 0} → (Error → Error) → Action A → Action A
rethrow h m s = handle h (m s)

-- `ServiceResponseData` of src/common/handlers/response-handler.ts: a message, and what goes with it.
pub record Response (A : Type 0) : Type 0 where
  pub message : String
  pub body : A
