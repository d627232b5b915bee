-- ===== src/Publish/Tests.antt =====
-- The format of issues on concrete reports.
use libre_mail_bug_report_in.Prelude.{
  ◌+◌, ◌≡◌, ◌≢◌, ◌≤◌, refl, Option, some, [], ◌++◌, arith, length,
}
use libre_mail_bug_report_in.Prelude.Text.{Text, codes}
use libre_mail_bug_report_in.Prelude.Text.Spaces.{trim_space, is_empty}
use libre_mail_bug_report_in.Ingest.Report.{Bytes, Report}
use libre_mail_bug_report_in.Publish.Format.{
  truncation_marker, format_issue, sections, overhead, fitted, fence_for, sanitize_code, one_line,
  longest_run, metadata_table, metadata_row, preamble, replace, map_lines, full_title,
}
use libre_mail_bug_report_in.Publish.Format.Limits.{format_issue_limits}
use libre_mail_bug_report_in.Publish.Format.Fence.{fitted-Unfenced}

abbrev sample : Report
sample = record {
  app_version = codes "1.4.2";
  platform = codes "android";
  report = codes "it said ```oops```";
  os_version = [];
  device = codes "a|b`c";
  client_timestamp = [];
}

abbrev parse_sample : Bytes → Option Report
parse_sample raw = some sample

abbrev same_text : Bytes → Text
same_text raw = raw

title_of_sample : full_title sample ≡ codes "Bug report: 1.4.2 on android"
unfolding full_title one_line map_lines trim_space is_empty
title_of_sample = refl

cell_of_device : sanitize_code (one_line (codes "a|b`c\n")) ≡ codes "a/b'c"
unfolding sanitize_code one_line replace map_lines trim_space is_empty
cell_of_device = refl

fence_of_sample : fence_for sample.report ≡ codes "````"
unfolding fence_for longest_run
fence_of_sample = refl

format_issue_limits_example :
    (length (format_issue parse_sample same_text (codes "id") (codes "{}")).0 ≤ 200)
    × (length (format_issue parse_sample same_text (codes "id") (codes "{}")).1 ≤ 65536)
format_issue_limits_example = format_issue_limits parse_sample same_text (codes "id") (codes "{}")

room :
    overhead
        (sections (codes "id") (some sample) []).0
        (fence_for (sections (codes "id") (some sample) []).1)
      + length truncation_marker
    ≤ 65536
unfolding overhead sections fence_for longest_run metadata_table metadata_row preamble sanitize_code
    replace one_line map_lines trim_space is_empty
room = omega arith

fitted-Unfenced_example :
    fitted sample.report 400 ≢ codes "it said " ++ (fence_for sample.report ++ codes "x")
fitted-Unfenced_example = fitted-Unfenced sample.report 400 (codes "it said ") (codes "x")
