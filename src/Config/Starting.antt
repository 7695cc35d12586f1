-- ===== src/Config/Starting.antt =====
-- What the settings of an environment that is accepted give to the rest of the service.
use prestohq_assessment.Prelude.{
  String, ◌≡◌, refl, true, Option, none, some, ◌⊎◌, inl, inr, or_else, str_eq, is_some, arith,
  Bool-cases, Option-cases, eq_iff,
}
use prestohq_assessment.Exec.{ok}
use prestohq_assessment.Provider.{FlutterwaveProvider}
use prestohq_assessment.Flutterwave.Api.{FlutterwaveConfig, given, require_secret}
use prestohq_assessment.Flutterwave.Service.{choose_provider}
use prestohq_assessment.Config.{
  EnvironmentVariables, Explain, JsNumbers, validate_env, validate_sync, configuration, jwt_options,
}

-- The two ways in which a provider is handed out
abbrev Chosen : FlutterwaveConfig → (real mock : FlutterwaveProvider) → Type 0
Chosen config real mock =
    ((choose_provider config real mock ≡ mock)
      × ((config.mock ≡ "true") ⊎ (given config.secret_key ≡ none)))
    ⊎ ((choose_provider config real mock ≡ real)
        × (secret : String) × (require_secret config ≡ ok secret))

chosen : (config : FlutterwaveConfig) (real mock : FlutterwaveProvider) → Chosen config real mock
unfolding choose_provider require_secret
chosen config real mock = elim (Bool-cases (str_eq config.mock "true")) [
  | inl asked ↦ inl (rw asked, inl ((eq_iff config.mock "true").0 asked))
  | inr live ↦ elim (Option-cases (given config.secret_key)) [
    | inl unset ↦ inl (rw (live, unset), inr unset)
    | inr (secret, set) ↦ inr (rw (live, set), secret, rw set)
  ]
]

present : (t : Option String) → is_some t ≡ true → (text : String) × (t ≡ some text)
present none h = absurd (ground arith)
present (some text) h = (text, refl)

accepted_set :
    (explain : Explain) (env v : EnvironmentVariables)
    → validate_env explain env ≡ inl v
    → (is_some env.database_url ≡ true) × (is_some env.jwt_secret ≡ true)
unfolding validate_env validate_sync
accepted_set explain env v done = (ground arith, ground arith)

-- What the service has when it starts with the settings of an environment
abbrev IsReady : (n : JsNumbers) → EnvironmentVariables → (real mock : FlutterwaveProvider) → Type 0
IsReady n env real mock =
    ((url : String) × ((configuration n env).database_url ≡ some url))
    × ((secret : String) × (jwt_options (configuration n env)
          ≡ some (secret, or_else env.jwt_expires_in "7d")))
    × Chosen (configuration n env).flutterwave real mock

-- Whenever the validation of the environment accepts it, texts are set for the database's address and for
-- the secret of the tokens, though each may be empty. Whatever the environment, the service is given either the mock provider, because that is asked for or no secret key is
-- set, or the live provider with a secret key that its calls find.
accepted-IsReady :
    (explain : Explain) (n : JsNumbers) (env v : EnvironmentVariables)
    (real mock : FlutterwaveProvider)
    → validate_env explain env ≡ inl v
    → IsReady n env real mock
unfolding configuration
accepted-IsReady explain n env v real mock accepted =
    let set = accepted_set explain env v accepted in
    let url = present env.database_url set.0 in
    let secret = present env.jwt_secret set.1 in
    let flutterwave = (configuration n env).flutterwave in
    ((url.0, url.1), (secret.0, rw secret.1), chosen flutterwave real mock)
