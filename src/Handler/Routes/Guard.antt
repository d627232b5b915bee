-- ===== src/Handler/Routes/Guard.antt =====
-- The routes that reach the reports, and the others.
use libre_mail_bug_report_in.Prelude.Text.{Text}
use libre_mail_bug_report_in.Handler.Admin
use libre_mail_bug_report_in.Handler.Admin.{
  unauthorized, method_not_allowed, refused, authorize, list_if, remove_if,
}
use libre_mail_bug_report_in.Ingest.Serve
