-- ===== src/Infra/Tests.antt =====
-- The bindings of a small stack.
use libre_mail_bug_report_in.Prelude.{[], ◌≡◌, refl, Option, none, some, err, if◌then◌else◌}
use libre_mail_bug_report_in.Prelude.Text.{Text, codes, text_eq}
use libre_mail_bug_report_in.Infra.{missing, load_config}

abbrev only_account : Text → Option Text
only_account key = if text_eq key (codes "cloudflareAccountId") then some (codes "acc") else none

store_is_required : load_config only_account (λ k. missing) [] ≡ err (codes "secretsStoreId")
unfolding load_config text_eq
store_is_required = refl
