-- ===== src/Publish/Batch/Confirmed.antt =====
-- internal/publish/publish.go: what publishing one report rests on.
use libre_mail_bug_report_in.Prelude.{◌≡◌, ◌⊎◌, inl, inr, refl, Option, List, Result, ok, err, wrap}
use libre_mail_bug_report_in.Prelude.Text.{Text}
use libre_mail_bug_report_in.Storage.Status.{pending, report_key}
use libre_mail_bug_report_in.Storage.Store.{Bytes, StoreError, ObjectStore, StoreLaws}
use libre_mail_bug_report_in.Lifecycle.{get_pending}
use libre_mail_bug_report_in.Publish.Client.Requests.{CreatedIssue}
use libre_mail_bug_report_in.Publish.Batch.{
  IssueCreator, after_create, after_open, after_fetch, publish_one,
}
use libre_mail_bug_report_in.Publish.Batch.Wired.{Job, wired}
use libre_mail_bug_report_in.Publish.Batch.Marks.{get_same}

module _ (S : ObjectStore) (contents : S.State → Text → Option Bytes)
    (laws : StoreLaws S contents) where
  module _ {G E : Type 0} (gh : IssueCreator G E) (job : Job (S.State × G) E) where
    -- The report's issue was created: its object was read, decrypted, formatted and accepted.
    abbrev pub Confirmed : Text → List Text → S.State × G → Type 0
    Confirmed id names w =
        (frame : Bytes) × (plaintext : Bytes) × (issue : CreatedIssue) × ((get_pending S id w.0).0
          ≡ ok frame)
        × (job.open_frame frame ≡ ok plaintext)
        × ((gh.create_issue (job.format_issue id plaintext).0 (job.format_issue id plaintext).1
              names w.1).0
            ≡ ok issue)

    -- Publishing one report changes an object of the store only if its frame was read and decrypted,
    -- and the issue made of that very content was created.
    pub publish_one-Confirmed :
        (id : Text) (names : List Text) (w : S.State × G) (k : Text)
        → (contents (publish_one (wired S gh job) id names w).1.0 k ≡ contents w.0 k)
          ⊎ Confirmed id names w
    unfolding publish_one get_pending after_create after_open after_fetch
    publish_one-Confirmed id names w k = fetched (S.get (report_key pending id) w.0).0 refl
      where
        created :
            (frame plaintext : Bytes) (r : Result E CreatedIssue) (g : G)
            → (S.get (report_key pending id) w.0).0 ≡ ok frame
            → job.open_frame frame ≡ ok plaintext
            → (gh.create_issue
                (job.format_issue id plaintext).0
                (job.format_issue id plaintext).1
                names
                w.1).0
              ≡ r
            → (contents
                  (after_create
                    (wired S gh job)
                    id
                    r
                    ((S.get (report_key pending id) w.0).1, g)).1.0
                  k
                ≡ contents w.0 k)
              ⊎ Confirmed id names w
        created frame plaintext (err e) g f o c =
            inl (get_same S contents laws (report_key pending id) k w.0)
        created frame plaintext (ok issue) g f o c = inr (frame, plaintext, issue, f, o, c)

        opened :
            (frame : Bytes) (r : Result E Bytes)
            → (S.get (report_key pending id) w.0).0 ≡ ok frame
            → job.open_frame frame ≡ r
            → (contents
                  (after_open
                    (wired S gh job)
                    id
                    names
                    r
                    ((S.get (report_key pending id) w.0).1, w.1)).1.0
                  k
                ≡ contents w.0 k)
              ⊎ Confirmed id names w
        opened frame (err e) f o = inl (get_same S contents laws (report_key pending id) k w.0)
        opened frame (ok plaintext) f o =
            let (title, body) = job.format_issue id plaintext in
            let (r, g) = gh.create_issue title body names w.1 in
            created frame plaintext r g f o refl

        fetched :
            (r : Result StoreError Bytes)
            → (S.get (report_key pending id) w.0).0 ≡ r
            → (contents
                  (after_fetch
                    (wired S gh job)
                    id
                    names
                    (wrap job.store_error r)
                    ((S.get (report_key pending id) w.0).1, w.1)).1.0
                  k
                ≡ contents w.0 k)
              ⊎ Confirmed id names w
        fetched (err e) f = inl (get_same S contents laws (report_key pending id) k w.0)
        fetched (ok frame) f = opened frame (job.open_frame frame) f refl
