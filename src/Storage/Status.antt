-- ===== src/Storage/Status.antt =====
-- internal/storage/status.go: the lifecycle status is a segment of the object key.
use libre_mail_bug_report_in.Prelude.{◌≡◌, ◌↔◌, ◌∙◌, refl, sym, ap, ap₂, ◌++◌, true}
use libre_mail_bug_report_in.Prelude.Text.{Text, codes, has_prefix, trim_prefix, trim_prefix-append}

pub data Status : Type 0 where
  pending removed published : Status

-- the string that a Status constant stands for
unfoldable pub status_text : Status → Text
status_text pending = codes "pending"
status_text removed = codes "removed"
status_text published = codes "published"

abbrev pub reports_prefix : Text
reports_prefix = codes "reports/"

unfoldable pub status_prefix : Status → Text
unfolding status_text
status_prefix s = reports_prefix ++ (status_text s ++ codes "/")

unfoldable pub report_key : Status → Text → Text
unfolding status_prefix
report_key s id = status_prefix s ++ id

-- The key of a report lies under the prefix of a status exactly when that is its own status.
pub has_prefix-report_key :
    (s t : Status) (id : Text) → (has_prefix (report_key t id) (status_prefix s) ≡ true) ↔ (s ≡ t)
unfolding report_key has_prefix
has_prefix-report_key pending pending id = (λ _. refl, λ _. refl)
has_prefix-report_key pending removed id = (λ h. cc, λ h. cc)
has_prefix-report_key pending published id = (λ h. cc, λ h. cc)
has_prefix-report_key removed pending id = (λ h. cc, λ h. cc)
has_prefix-report_key removed removed id = (λ _. refl, λ _. refl)
has_prefix-report_key removed published id = (λ h. cc, λ h. cc)
has_prefix-report_key published pending id = (λ h. cc, λ h. cc)
has_prefix-report_key published removed id = (λ h. cc, λ h. cc)
has_prefix-report_key published published id = (λ _. refl, λ _. refl)

-- Trimming the prefix of its status off a key gives the report's id back.
pub trim_prefix-report_key :
    (s : Status) (id : Text) → trim_prefix (report_key s id) (status_prefix s) ≡ id
unfolding report_key
trim_prefix-report_key s id = trim_prefix-append (status_prefix s) id

-- Keys of different statuses or different reports are different.
pub report_key_injective :
    (s t : Status) (a b : Text) → report_key s a ≡ report_key t b → (s ≡ t) × (a ≡ b)
report_key_injective s t a b e =
    let same : s ≡ t =
      (has_prefix-report_key s t b).0 (rw (← e) ((has_prefix-report_key s s a).1 refl)) in
    (
      same,
      sym (trim_prefix-report_key s a)
          ∙ (ap₂ trim_prefix e (ap status_prefix same) ∙ trim_prefix-report_key t b),
    )
