-- ===== src/Infra/Bound.antt =====
-- The contract between the deployment and the Worker: the names that the Worker reads are bound, each
-- to what it is read as.
use libre_mail_bug_report_in.Prelude.{◌≡◌, refl, some}
use libre_mail_bug_report_in.Prelude.Text.{codes, text_eq}
use libre_mail_bug_report_in.Infra.{
  InfraConfig, secrets_store_secret, plain_text, worker_bindings, find_binding,
}
use libre_mail_bug_report_in.Worker.Scheduled.{
  keyring_binding, github_token_binding, github_repo_var,
}
use libre_mail_bug_report_in.Worker.Provider.{
  otel_endpoint_var, otel_service_var, otel_headers_secret,
}
use libre_mail_bug_report_in.Worker.Backend.{admin_token_binding}

-- The names that the code under worker reads are bound in every deployment: the four secrets to secrets
-- of the configured store, and the variables to the configured texts.
pub worker_bindings-bound :
    (cfg : InfraConfig)
    → (find_binding keyring_binding (worker_bindings cfg)
        ≡ some (secrets_store_secret cfg.secrets_store_id (codes "bugreport-enc-keyring")))
      × (find_binding admin_token_binding (worker_bindings cfg)
          ≡ some (secrets_store_secret cfg.secrets_store_id (codes "bugreport-admin-token")))
      × (find_binding github_token_binding (worker_bindings cfg)
          ≡ some (secrets_store_secret cfg.secrets_store_id (codes "github-token")))
      × (find_binding otel_headers_secret (worker_bindings cfg)
          ≡ some (secrets_store_secret cfg.secrets_store_id (codes "otel-exporter-otlp-headers")))
      × (find_binding github_repo_var (worker_bindings cfg) ≡ some (plain_text cfg.github_repo))
      × (find_binding otel_endpoint_var (worker_bindings cfg) ≡ some (plain_text cfg.otel_endpoint))
      × (find_binding otel_service_var (worker_bindings cfg)
          ≡ some (plain_text cfg.otel_service_name))
unfolding find_binding worker_bindings text_eq
worker_bindings-bound cfg = (refl, refl, refl, refl, refl, refl, refl)
