-- ===== src/Infra.antt =====
-- infra/deploy.go: loadConfig, and the bindings that the deployed Worker is given. The stack's
-- configuration is a parameter: the text of a key that is set, and TryInt of one. The resources that
-- deploy registers with them are Pulumi's.
pub mod Bound
mod Tests
use libre_mail_bug_report_in.Prelude.{
  ℕ, Option, none, some, List, [], ◌∷◌, ◌++◌, Bool, true, false, Result, ok, err, if◌then◌else◌,
  ◌>>=◌,
}
use libre_mail_bug_report_in.Prelude.Text.{Text, codes, text_eq}
use libre_mail_bug_report_in.Prelude.Text.Spaces.{is_empty}

abbrev pub default_worker_name : Text
default_worker_name = codes "libremail-bug-report-ingest"

abbrev pub default_r2_bucket_name : Text
default_r2_bucket_name = codes "libremail-bug-reports"

abbrev pub default_compatibility_date : Text
default_compatibility_date = codes "2025-06-01"

abbrev pub default_dns_record_type : Text
default_dns_record_type = codes "CNAME"

abbrev pub default_dns_ttl_seconds : ℕ
default_dns_ttl_seconds = 300

abbrev pub default_github_repo : Text
default_github_repo = codes "JMR-dev/LibreMail"

abbrev pub default_otel_service_name : Text
default_otel_service_name = codes "libremail-bug-report-ingest"

pub record InfraConfig : Type 0 where
  pub cloudflare_account_id : Text
  pub cloudflare_zone_id : Text
  pub worker_name : Text
  pub worker_content : Text
  pub worker_script_path : Text
  pub compatibility_date : Text
  pub secrets_store_id : Text
  pub github_repo : Text
  pub otel_endpoint : Text
  pub otel_service_name : Text
  pub r2_bucket_name : Text
  pub r2_bucket_location : Text
  pub gcp_project : Text
  pub dns_managed_zone : Text
  pub dns_record_name : Text
  pub dns_record_type : Text
  pub dns_record_target : Text
  pub dns_ttl_seconds : ℕ

-- TryInt: the number, ErrMissingVar, or another error
pub data IntEntry : Type 0 where
  number : ℕ → IntEntry
  missing malformed : IntEntry

-- the error names the key
module _ (lookup : Text → Option Text) (try_int : Text → IntEntry) (placeholder : Text) where
  or_missing : Text → Option Text → Result Text Text
  or_missing key none = err key
  or_missing key (some v) = ok v

  unfoldable pub try : Text → Result Text Text
  unfolding or_missing
  try key = or_missing key (lookup key)

  or_unset : Option Text → Text
  or_unset none = []
  or_unset (some v) = v

  unfoldable pub get : Text → Text
  unfolding or_unset
  get key = or_unset (lookup key)

  unfoldable pub get_or : Text → Text → Text
  unfolding get
  get_or key default_value = if is_empty (get key) then default_value else get key

  ttl_of : IntEntry → Result Text ℕ
  ttl_of (number v) = ok v
  ttl_of missing = ok default_dns_ttl_seconds
  ttl_of malformed = err (codes "dnsTtlSeconds")

  unfoldable pub load_config : Result Text InfraConfig
  unfolding try get_or get ttl_of
  load_config = do
    account_id ← try (codes "cloudflareAccountId")
    store_id ← try (codes "secretsStoreId")
    managed_zone ← try (codes "dnsManagedZone")
    record_name ← try (codes "dnsRecordName")
    record_target ← try (codes "dnsRecordTarget")
    ttl ← ttl_of (try_int (codes "dnsTtlSeconds"))
    ok (record {
      cloudflare_account_id = account_id;
      cloudflare_zone_id = get (codes "cloudflareZoneId");
      worker_name = get_or (codes "workerName") default_worker_name;
      worker_content = get_or (codes "workerScriptContent") placeholder;
      worker_script_path = get (codes "workerScriptPath");
      compatibility_date = get_or (codes "workerCompatibilityDate") default_compatibility_date;
      secrets_store_id = store_id;
      github_repo = get_or (codes "githubRepo") default_github_repo;
      otel_endpoint = get (codes "otelExporterOtlpEndpoint");
      otel_service_name = get_or (codes "otelServiceName") default_otel_service_name;
      r2_bucket_name = get_or (codes "r2BucketName") default_r2_bucket_name;
      r2_bucket_location = get (codes "r2BucketLocation");
      gcp_project = get (codes "gcpProject");
      dns_managed_zone = managed_zone;
      dns_record_name = record_name;
      dns_record_type = get_or (codes "dnsRecordType") default_dns_record_type;
      dns_record_target = record_target;
      dns_ttl_seconds = ttl;
    })

-- what a binding is of: a bucket, a stored secret, or a plain text
pub data BindingTarget : Type 0 where
  r2_bucket : Text → BindingTarget
  secrets_store_secret : Text → Text → BindingTarget
  plain_text : Text → BindingTarget

pub record Binding : Type 0 where
  pub name : Text
  pub bound : BindingTarget

unfoldable pub secrets_store_binding : Text → Text → Text → Binding
secrets_store_binding name store_id secret_name = record {
  name = name;
  bound = secrets_store_secret store_id secret_name;
}

unfoldable pub plain_text_binding : Text → Text → Binding
plain_text_binding name text = record { name = name; bound = plain_text text }

unfoldable pub worker_bindings : InfraConfig → List Binding
unfolding secrets_store_binding plain_text_binding
worker_bindings cfg =
    record { name = codes "REPORTS_BUCKET"; bound = r2_bucket cfg.r2_bucket_name }
    ∷ secrets_store_binding (codes "BUGREPORT_ENC_KEYRING") cfg.secrets_store_id
        (codes "bugreport-enc-keyring")
    ∷ secrets_store_binding (codes "ADMIN_TOKEN") cfg.secrets_store_id
        (codes "bugreport-admin-token")
    ∷ secrets_store_binding (codes "GITHUB_TOKEN") cfg.secrets_store_id (codes "github-token")
    ∷ secrets_store_binding (codes "OTEL_EXPORTER_OTLP_HEADERS") cfg.secrets_store_id
        (codes "otel-exporter-otlp-headers")
    ∷ plain_text_binding (codes "GITHUB_REPO") cfg.github_repo
    ∷ plain_text_binding (codes "OTEL_EXPORTER_OTLP_ENDPOINT") cfg.otel_endpoint
    ∷ plain_text_binding (codes "OTEL_SERVICE_NAME") cfg.otel_service_name
    ∷ []

-- env.<name>
unfoldable pub find_binding : Text → List Binding → Option BindingTarget
find_binding n [] = none
find_binding n (b ∷ bindings) = if text_eq b.name n then some b.bound else find_binding n bindings
