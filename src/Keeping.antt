-- ===== src/Keeping.antt =====
-- Predicates of the state that an action keeps, whatever it returns: the rules by which handlers are
-- shown to keep what each of their steps keeps.
use prestohq_assessment.Prelude.{Bool, true, false, Option, none, some, if◌then◌else◌}
use prestohq_assessment.Errors.{Error}
use prestohq_assessment.Db.{State}
use prestohq_assessment.Exec.{
  Result, ok, err, Action, raise_if, lift, or_raise, when, continue, settle, transaction, handle,
  rethrow, ◌>>=◌, ◌>>◌,
}

abbrev pub Keeps : {A : Type 0} → (State → Type 0) → Action A → Type 0
Keeps P m = (s : State) → P s → P (m s).1

module _ (P : State → Type 0) where
  pub continue-Keeps :
      {A B : Type 0} (f : A → Action B) (r : Result A × State)
      → P r.1
      → ((a : A) → Keeps P (f a))
      → P (continue f r).1
  continue-Keeps f (ok a, s) h k = k a s h
  continue-Keeps f (err e, s) h k = h

  pub bind-Keeps :
      {A B : Type 0} (m : Action A) (f : A → Action B)
      → Keeps P m
      → ((a : A) → Keeps P (f a))
      → Keeps P (m >>= f)
  bind-Keeps m f first next s h = continue-Keeps f (m s) (first s h) next

  pub then-Keeps :
      {A B : Type 0} (m : Action A) (n : Action B) → Keeps P m → Keeps P n → Keeps P (m >> n)
  then-Keeps m n first next = bind-Keeps m (λ _. n) first (λ _. next)

  pub settle-Keeps :
      {A : Type 0} (s : State) (r : Result A × State) → P s → P r.1 → P (settle s r).1
  settle-Keeps s (ok a, s') before after = after
  settle-Keeps s (err e, s') before after = before

  pub transaction-Keeps : {A : Type 0} (m : Action A) → Keeps P m → Keeps P (transaction m)
  transaction-Keeps m k s h = settle-Keeps s (m s) h (k s h)

  pub handle-Keeps :
      {A : Type 0} (f : Error → Error) (r : Result A × State) → P r.1 → P (handle f r).1
  handle-Keeps f (ok a, s) h = h
  handle-Keeps f (err e, s) h = h

  pub rethrow-Keeps :
      {A : Type 0} (f : Error → Error) (m : Action A) → Keeps P m → Keeps P (rethrow f m)
  rethrow-Keeps f m k s h = handle-Keeps f (m s) (k s h)

  pub raise_if-Keeps : (c : Bool) (e : Error) → Keeps P (raise_if c e)
  raise_if-Keeps c e s h = h

  pub lift-Keeps : {A : Type 0} (r : Result A) → Keeps P (lift r)
  lift-Keeps r s h = h

  pub or_raise-Keeps : {A : Type 0} (o : Option A) (e : Error) → Keeps P (or_raise o e)
  or_raise-Keeps none e s h = h
  or_raise-Keeps (some a) e s h = h

  pub when-Keeps : (c : Bool) (m : Action (Unit {0})) → Keeps P m → Keeps P (when c m)
  when-Keeps true m k = k
  when-Keeps false m k = λ s h. h

  pub if-Keeps :
      {A : Type 0} (c : Bool) (m n : Action A)
      → Keeps P m
      → Keeps P n
      → Keeps P (if c then m else n)
  if-Keeps true m n k l = k
  if-Keeps false m n k l = l

  -- The same rules for a test and a required row, with what follows them.
  pub guard-Keeps :
      {B : Type 0} (c : Bool) (e : Error) (n : Action B) → Keeps P n → Keeps P (raise_if c e >> n)
  guard-Keeps c e n next = then-Keeps (raise_if c e) n (raise_if-Keeps c e) next

  pub require-Keeps :
      {A B : Type 0} (o : Option A) (e : Error) (k : A → Action B)
      → ((a : A) → Keeps P (k a))
      → Keeps P (or_raise o e >>= k)
  require-Keeps o e k next = bind-Keeps (or_raise o e) k (or_raise-Keeps o e) next
