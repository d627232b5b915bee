-- ===== src/Publish/Batch/Marks.antt =====
-- internal/publish/publish.go: what marking one report as published does to the stored reports.
use libre_mail_bug_report_in.Prelude.{
  ◌≡◌, ◌≢◌, ◌∙◌, inl, inr, refl, Option, Result, ok, err, arith, Bool-cases, wrap, Done,
}
use libre_mail_bug_report_in.Prelude.Text.{Text, text_eq, text_eq_sound, text_eq_iff}
use libre_mail_bug_report_in.Storage.Status.{
  Status, pending, published, report_key, report_key_injective,
}
use libre_mail_bug_report_in.Storage.Store.{Bytes, ObjectStore, StoreLaws}
use libre_mail_bug_report_in.Lifecycle.{mark_published}
use libre_mail_bug_report_in.Lifecycle.Moves.{Held, Moved}
use libre_mail_bug_report_in.Lifecycle.Faults.{
  transition-Held, transition_elsewhere, transition_absent,
}

pub pending-ne-published : pending ≢ published
pending-ne-published = λ e. cc

pub wrap_ok : {E F : Type 0} (f : E → F) (r : Result E Done) → wrap f r ≡ ok tt → r ≡ ok tt
wrap_ok f (ok tt) h = refl
wrap_ok f (err e) h = cc

module _ (S : ObjectStore) (contents : S.State → Text → Option Bytes)
    (laws : StoreLaws S contents) where
  abbrev pub IsHeld : Text → Bytes → S.State → Type 0
  IsHeld id = Held S contents laws pending published id

  abbrev pub IsPublished : Text → Bytes → S.State → Type 0
  IsPublished id = Moved S contents laws pending published id

  pub get_same : (k j : Text) (s : S.State) → contents (S.get k s).1 j ≡ contents s j
  get_same = laws.get_keeps

  -- marking one report leaves the keys of another
  pub mark_other :
      (id j : Text) (st : Status) (s : S.State)
      → id ≢ j
      → contents (mark_published S id s).1 (report_key st j) ≡ contents s (report_key st j)
  unfolding mark_published
  mark_other id j st s h =
      transition_elsewhere S contents laws pending published id pending-ne-published s
        (report_key st j) (λ e. h (report_key_injective pending st id j e).1)
        (λ e. h (report_key_injective published st id j e).1)

  pub get-Held : (k j : Text) (d : Bytes) (s : S.State) → IsHeld j d s → IsHeld j d (S.get k s).1
  get-Held k j d s h =
      let p = get_same k (report_key pending j) s in
      let q = get_same k (report_key published j) s in ground (arith, h, p, q)

  pub mark-Held :
      (id j : Text) (d : Bytes) (s : S.State) → IsHeld j d s → IsHeld j d (mark_published S id s).1
  mark-Held id j d s h = elim (Bool-cases (text_eq id j)) [
    | inl e ↦ rw (text_eq_sound id j e) (
        unfold mark_published in
        transition-Held S contents laws pending published j pending-ne-published d s h)
    | inr e ↦
        let other : id ≢ j = λ same. let t = (text_eq_iff id j).1 same in cc in
        let p = mark_other id j pending s other in
        let q = mark_other id j published s other in ground (arith, h, p, q)
  ]

  pub mark-Moved :
      (id j : Text) (d : Bytes) (s : S.State)
      → IsPublished j d s
      → IsPublished j d (mark_published S id s).1
  mark-Moved id j d s h = elim (Bool-cases (text_eq id j)) [
    | inl e ↦ rw (text_eq_sound id j e) (
        unfold mark_published in
        (
          transition_absent S contents laws pending published j pending-ne-published s
                (report_key published j) h.1
              ∙ h.0,
          transition_absent S contents laws pending published j pending-ne-published s
                (report_key pending j) h.1
              ∙ h.1,
        ))
    | inr e ↦
        let other : id ≢ j = λ same. let t = (text_eq_iff id j).1 same in cc in
        (mark_other id j published s other ∙ h.0, mark_other id j pending s other ∙ h.1)
  ]
