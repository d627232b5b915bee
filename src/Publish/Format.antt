-- ===== src/Publish/Format.antt =====
-- internal/publish/format.go: the title and the body of an issue. A string is the list of its runes,
-- where an invalid byte is one rune, as in the `range` and RuneCountInString of the source.
-- `json.Unmarshal` into an ingest.Report, and the conversion of bytes to a string, are parameters.
pub mod Fence
pub mod Limits
pub mod Cells
use libre_mail_bug_report_in.Prelude.{
  ℕ, zero, suc, ◌+◌, ◌*◌, ◌-◌, max, Option, none, some, List, [], ◌∷◌, ◌++◌, Bool, true, false, not,
  ◌||◌, ltb, leb, ◌==◌, if◌then◌else◌, length, replicate,
}
use libre_mail_bug_report_in.Prelude.Text.{Text, codes}
use libre_mail_bug_report_in.Prelude.Text.Spaces.{trim_space, is_empty}
use libre_mail_bug_report_in.Ingest.Report.{Bytes, Report}

abbrev pub max_issue_body_runes : ℕ
max_issue_body_runes = 65536

abbrev pub max_title_runes : ℕ
max_title_runes = 200

-- the ellipses of the source are U+2026
abbrev pub truncation_marker : Text
truncation_marker =
    10
      ∷ 10
      ∷ b'['
      ∷ 0x2026
      ∷ codes " truncated: report exceeded GitHub's 65,536-character issue body limit "
    ++ (0x2026 ∷ b']' ∷ [])

-- the loop of truncateRunes
unfoldable pub runes_before : ℕ → ℕ → Text → Text
runes_before n count [] = []
runes_before n count (c ∷ s) =
    let rest = runes_before n (count + 1) s in if count == n then [] else c ∷ rest

unfoldable pub truncate_runes : Text → ℕ → Text
unfolding runes_before
truncate_runes s n = if n == 0 then [] else if leb (length s) n then s else runes_before n 0 s

-- the function that oneLine hands to strings.Map, with none for a rune that is dropped
unfoldable pub line_rune : ℕ → Option ℕ
line_rune r =
    if r == b'\n' || (r == b'\r' || r == b'\t')
    then some b' '
    else if ltb r 0x20
    then none
    else some r

unfoldable pub map_lines : Text → Text
unfolding line_rune
map_lines [] = []
map_lines (r ∷ s) = elim (line_rune r) [ none ↦ map_lines s | some r' ↦ r' ∷ map_lines s ]

unfoldable pub one_line : Text → Text
unfolding map_lines
one_line s = trim_space (map_lines s)

unfoldable pub replace : ℕ → ℕ → Text → Text
replace from to [] = []
replace from to (c ∷ s) = (if c == from then to else c) ∷ replace from to s

unfoldable pub sanitize_code : Text → Text
unfolding replace
sanitize_code s = replace b'|' b'/' (replace b'`' b'\'' s)

unfoldable pub longest_run : ℕ → ℕ → Text → ℕ
longest_run longest run [] = longest
longest_run longest run (r ∷ s) =
    let run' = if r == b'`' then run + 1 else 0 in longest_run (max longest run') run' s

unfoldable pub fence_for : Text → Text
unfolding longest_run
fence_for s = let n = longest_run 0 0 s + 1 in replicate (if ltb n 3 then 3 else n) b'`'

unfoldable pub metadata_row : Text → Text → Text
unfolding one_line sanitize_code is_empty
metadata_row label value =
    let v = one_line value in
    if is_empty v
    then []
    else codes "| " ++ (label ++ (codes " | `" ++ (sanitize_code v ++ codes "` |\n")))

unfoldable pub metadata_table : Report → Text
unfolding metadata_row
metadata_table rep =
    codes "| Field | Value |\n| --- | --- |\n"
    ++ (metadata_row (codes "App version") rep.app_version
        ++ (metadata_row (codes "Platform") rep.platform
            ++ (metadata_row (codes "OS version") rep.os_version
                ++ (metadata_row (codes "Device") rep.device
                    ++ metadata_row (codes "Client timestamp") rep.client_timestamp))))

-- the title before it is truncated
unfoldable pub full_title : Report → Text
unfolding one_line is_empty
full_title rep =
    let app = one_line rep.app_version in
    let platform = one_line rep.platform in
    codes "Bug report"
    ++ ((if is_empty app then [] else codes ": " ++ app)
        ++ (if is_empty platform then [] else codes " on " ++ platform))

unfoldable pub build_title : Option Report → Text
unfolding truncate_runes
build_title none = codes "Automated bug report"
build_title (some rep) = truncate_runes (full_title rep) max_title_runes

abbrev pub footer : Text
footer = codes "\n\n---\nLabels: `bug-report`, `automated`, `needs-triage`.\n"

unfoldable pub preamble : Text → Text
unfolding sanitize_code
preamble id =
    codes "This issue was filed automatically by the LibreMail bug-report ingest pipeline "
    ++ (codes "(opt-in debug reports from the app). PII was best-effort scrubbed before storage; "
        ++ (codes "see `docs/privacy.md`.\n\n"
            ++ (codes "**Report ID:** `" ++ (sanitize_code id ++ codes "`\n\n"))))

-- the head of the body, and the text that goes between the fences
unfoldable pub sections : Text → Option Report → Text → Text × Text
unfolding metadata_table
sections id (some rep) verbatim =
    (preamble id ++ (metadata_table rep ++ codes "\n### Report\n\n"), rep.report)
sections id none verbatim = (
  preamble id
      ++ (codes
            "_Payload did not match the expected report schema; showing the decrypted content verbatim._\n\n"
          ++ codes "### Decrypted content\n\n"),
  verbatim,
)

-- The runes around the text. The budget of the source is the limit less these, and may be negative.
unfoldable pub overhead : Text → Text → ℕ
overhead head fence = length head + (length footer + (2 * length fence + 2))

unfoldable pub fitted : Text → ℕ → Text
unfolding truncate_runes
fitted report_text around =
    if ltb max_issue_body_runes (around + length report_text)
    then truncate_runes report_text (max_issue_body_runes - around - length truncation_marker)
      ++ truncation_marker
    else report_text

unfoldable pub assembled : Text → Text → Text → Text
assembled head fence text = head ++ (fence ++ (b'\n' ∷ text ++ (b'\n' ∷ fence ++ footer)))

unfoldable pub build_body : Text → Option Report → Text → Text
unfolding sections fence_for overhead fitted assembled
build_body id parsed verbatim =
    let (head, report_text) = sections id parsed verbatim in
    let fence = fence_for report_text in
    truncate_runes (assembled head fence (fitted report_text (overhead head fence)))
      max_issue_body_runes

module _ (unmarshal : Bytes → Option Report) (to_text : Bytes → Text) where
  unfoldable pub format_issue : Text → Bytes → Text × Text
  unfolding build_title build_body
  format_issue id plaintext =
      let parsed = unmarshal plaintext in
      (build_title parsed, build_body id parsed (to_text plaintext))
