-- ===== src/LabConfig/Environment.antt =====
-- What the local lab takes from its environment.
use kafka_sqs.Base.{String, ◌≡◌, refl, Bool, true, false, List, [], ◌∷◌, map, arith, if◌then◌else◌}
use kafka_sqs.Base.Lists.{any}
use kafka_sqs.Base.Text.{strip, is_empty}
use kafka_sqs.Base.Effect.{Reply, value, error}
use kafka_sqs.LabConfig.{
  LocalLabConfig, defaults, Environment, or_default, blank_error, ◌>>=◌, setting, from_environment,
}

-- A variable, and the default of the setting that it overrides.
abbrev pub keys : List (String × String)
keys =
    ("KAFKA_BOOTSTRAP_SERVERS", defaults.kafka_bootstrap_servers)
    ∷ ("KAFKA_TOPIC", defaults.kafka_topic)
    ∷ ("KAFKA_DLQ_TOPIC", defaults.kafka_dlq_topic)
    ∷ ("KAFKA_CONSUMER_GROUP", defaults.kafka_consumer_group)
    ∷ ("SQS_ENDPOINT_URL", defaults.sqs_endpoint_url)
    ∷ ("AWS_DEFAULT_REGION", defaults.sqs_region)
    ∷ ("SQS_QUEUE_NAME", defaults.sqs_queue_name)
    ∷ ("SQS_DLQ_NAME", defaults.sqs_dlq_name)
    ∷ ("POSTGRES_DSN", defaults.postgres_dsn)
    ∷ ("KAFKA_SCHEMA", defaults.kafka_schema)
    ∷ ("SQS_SCHEMA", defaults.sqs_schema)
    ∷ ("KAFKA_CONSOLE_URL", defaults.console_url)
    ∷ ("ADMINER_URL", defaults.adminer_url)
    ∷ []

-- The settings in the order of the variables.
abbrev pub entries : LocalLabConfig → List String
entries c =
    c.kafka_bootstrap_servers ∷ c.kafka_topic ∷ c.kafka_dlq_topic ∷ c.kafka_consumer_group
    ∷ c.sqs_endpoint_url ∷ c.sqs_region ∷ c.sqs_queue_name ∷ c.sqs_dlq_name ∷ c.postgres_dsn
    ∷ c.kafka_schema ∷ c.sqs_schema ∷ c.console_url ∷ c.adminer_url ∷ []

abbrev pub text_of : Environment → String × String → String
text_of env (name, default_value) = strip (or_default (env name) default_value)

-- Every setting is the stripped text of its variable, or of its default where the variable is not
-- set, and none of them is empty; or one of them is, and the error says so.
abbrev pub Settles : Environment → Reply LocalLabConfig → Type 0
Settles env (value c) =
    (any (λ key. is_empty (text_of env key)) keys ≡ false) × (entries c ≡ map (text_of env) keys)
Settles env (error e) =
    (any (λ key. is_empty (text_of env key)) keys ≡ true)
    × ((key : String × String) × (is_empty (text_of env key) ≡ true) × (e ≡ blank_error key.0))

module _ (env : Environment) where
  setting-Settles :
      (name default_value : String) (f : String → Reply LocalLabConfig)
      → (is_empty (text_of env (name, default_value)) ≡ true
          → Settles env (error (blank_error name)))
      → (is_empty (text_of env (name, default_value)) ≡ false
          → Settles env (f (text_of env (name, default_value))))
      → Settles env (setting env name default_value >>= f)
  unfolding setting
  setting-Settles name default_value f blank full =
      split (is_empty (text_of env (name, default_value))) refl
    where
      split :
          (b : Bool)
          → is_empty (text_of env (name, default_value)) ≡ b
          → Settles env (
              (if b then error (blank_error name) else value (text_of env (name, default_value)))
              >>= f)
      split true e = blank e
      split false e = full e

  blank_Settles :
      (key : String × String)
      → is_empty (text_of env key) ≡ true
      → any (λ k. is_empty (text_of env k)) keys ≡ true
      → Settles env (error (blank_error key.0))
  blank_Settles key e h = (h, (key, e, refl))

  -- The configuration is read exactly if no setting is blank: each is then the text of its own
  -- variable, or its default where that is not set, without the white space around it. Otherwise
  -- RuntimeError names a variable whose setting is blank.
  pub from_environment-Settles : Settles env (from_environment env)
  unfolding from_environment
  from_environment-Settles =
      setting-Settles "KAFKA_BOOTSTRAP_SERVERS" _ _
        (λ e. blank_Settles ("KAFKA_BOOTSTRAP_SERVERS", _) e (ground arith))
        λ h0.
          setting-Settles "KAFKA_TOPIC" _ _ (λ e. blank_Settles ("KAFKA_TOPIC", _) e (ground arith))
            λ h1.
              setting-Settles "KAFKA_DLQ_TOPIC" _ _
                (λ e. blank_Settles ("KAFKA_DLQ_TOPIC", _) e (ground arith))
                λ h2.
                  setting-Settles "KAFKA_CONSUMER_GROUP" _ _
                    (λ e. blank_Settles ("KAFKA_CONSUMER_GROUP", _) e (ground arith))
                    λ h3.
                      setting-Settles "SQS_ENDPOINT_URL" _ _
                        (λ e. blank_Settles ("SQS_ENDPOINT_URL", _) e (ground arith))
                        λ h4.
                          setting-Settles "AWS_DEFAULT_REGION" _ _
                            (λ e. blank_Settles ("AWS_DEFAULT_REGION", _) e (ground arith))
                            λ h5.
                              setting-Settles "SQS_QUEUE_NAME" _ _
                                (λ e. blank_Settles ("SQS_QUEUE_NAME", _) e (ground arith))
                                λ h6.
                                  setting-Settles "SQS_DLQ_NAME" _ _
                                    (λ e. blank_Settles ("SQS_DLQ_NAME", _) e (ground arith))
                                    λ h7.
                                      setting-Settles "POSTGRES_DSN" _ _
                                        (λ e. blank_Settles ("POSTGRES_DSN", _) e (ground arith))
                                        λ h8.
                                          setting-Settles "KAFKA_SCHEMA" _ _
                                            (λ e.
                                              blank_Settles ("KAFKA_SCHEMA", _) e (ground arith))
                                            λ h9.
                                              setting-Settles "SQS_SCHEMA" _ _
                                                (λ e.
                                                  blank_Settles ("SQS_SCHEMA", _) e (ground arith))
                                                λ h10.
                                                  setting-Settles "KAFKA_CONSOLE_URL" _ _
                                                    (λ e.
                                                      blank_Settles ("KAFKA_CONSOLE_URL", _) e
                                                        (ground arith))
                                                    λ h11.
                                                      setting-Settles "ADMINER_URL" _ _
                                                        (λ e.
                                                          blank_Settles ("ADMINER_URL", _) e
                                                            (ground arith))
                                                        λ h12. (ground arith, refl)
