-- ===== src/Handler/Admin/Effects.antt =====
-- What the admin handlers do to the reports.
use libre_mail_bug_report_in.Prelude.{
  ℕ, ◌≡◌, ◌≢◌, ◌↔◌, ◌⊎◌, inl, inr, refl, Option, none, some, List, ok, err, arith, if◌then◌else◌,
  ap, In, Bool-cases, Result, Done,
}
use libre_mail_bug_report_in.Prelude.Text.{Text, codes, text_eq}
use libre_mail_bug_report_in.Prelude.Text.Spaces.{is_empty}
use libre_mail_bug_report_in.Storage.Status.{pending, report_key}
use libre_mail_bug_report_in.Storage.Store.{ObjectStore, StoreLaws, Bytes}
use libre_mail_bug_report_in.Lifecycle.{
  LifecycleError, unknown_report, list_failed, read_failed, write_failed, delete_failed,
  list_pending, mark_removed,
}
use libre_mail_bug_report_in.Lifecycle.Removal.{mark_removed-list_pending}
use libre_mail_bug_report_in.Handler.Admin.{
  Request, Response, error_payload, admin_list, unauthorized, refused, reports, remove,
  remove_via_post, remove_via_delete, list_if, remove_if, removal, listed, from_lifecycle,
  manager_backend, deny_all_backend, method_not_allowed,
}

removal_200 :
    (id : Text) (o : Result LifecycleError Done)
    → (removal id (from_lifecycle o)).status ≡ 200
    → o ≡ ok tt
unfolding removal from_lifecycle
removal_200 id (ok tt) h = refl
removal_200 id (err (unknown_report i)) h = ground arith
removal_200 id (err (list_failed e)) h = ground arith
removal_200 id (err (read_failed s e)) h = ground arith
removal_200 id (err (write_failed s e)) h = ground arith
removal_200 id (err (delete_failed s e)) h = ground arith

listed_ids :
    (ids : List Text) (o : Result LifecycleError (List Text))
    → (listed (from_lifecycle o)).payload ≡ admin_list ids
    → o ≡ ok ids
unfolding listed from_lifecycle
listed_ids ids (ok js) h = cc
listed_ids ids (err e) h = ground arith

impossible : (status : ℕ) → status ≡ 200 → status ≢ 401
impossible status = omega arith

module _ (S : ObjectStore) (token : Text) where
  refused_status :
      (r : Request)
      → (refused (manager_backend S token) r (ok token) ≡ none)
        ⊎ (refused (manager_backend S token) r (ok token) ≡ some unauthorized)
  unfolding refused
  refused_status r = ground arith

  remove_if_200 :
      (id : Text) (o : Option Response) (s : S.State)
      → (o ≡ none) ⊎ (o ≡ some unauthorized)
      → (remove_if (manager_backend S token) id o s).0.status ≡ 200
      → ((mark_removed S id s).0 ≡ ok tt)
        × ((remove_if (manager_backend S token) id o s).1 ≡ (mark_removed S id s).1)
  unfolding remove_if unauthorized
  remove_if_200 id none s h ok' = (removal_200 id (mark_removed S id s).0 ok', refl)
  remove_if_200 id (some r) s (inl e) ok' = cc
  remove_if_200 id (some r) s (inr e) ok' =
      let same : r ≡ unauthorized = cc in
      let status : r.status ≡ 401 = ap (λ (x : Response). x.status) same in
      absurd (impossible r.status ok' status)

  remove_via_post_200 :
      (id : Text) (r : Request) (s : S.State)
      → (remove_via_post (manager_backend S token) id r s).0.status ≡ 200
      → ((mark_removed S id s).0 ≡ ok tt)
        × ((remove_via_post (manager_backend S token) id r s).1 ≡ (mark_removed S id s).1)
  unfolding remove_via_post remove method_not_allowed
  remove_via_post_200 id r s h = elim (Bool-cases (text_eq r.method (codes "POST"))) [
    | inl e ↦ simp e (
        remove_if_200 id (refused (manager_backend S token) r (ok token)) s (refused_status r)
          (simp e at h))
    | inr e ↦ let h' = simp e at h in ground arith
  ]

  list_if_ids :
      (ids : List Text) (o : Option Response) (s : S.State)
      → (o ≡ none) ⊎ (o ≡ some unauthorized)
      → (list_if (manager_backend S token) o s).0.payload ≡ admin_list ids
      → (list_pending S s).0 ≡ ok ids
  unfolding list_if unauthorized
  list_if_ids ids none s h e = listed_ids ids (list_pending S s).0 e
  list_if_ids ids (some r) s (inl e) h = cc
  list_if_ids ids (some r) s (inr e) h =
      let same : r ≡ unauthorized = cc in
      let shown : r.payload ≡ error_payload (codes "unauthorized") =
        ap (λ (x : Response). x.payload) same in
      cc

  reports_ids :
      (ids : List Text) (r : Request) (s : S.State)
      → (reports (manager_backend S token) r s).0.payload ≡ admin_list ids
      → (list_pending S s).0 ≡ ok ids
  unfolding reports method_not_allowed
  reports_ids ids r s h = elim (Bool-cases (text_eq r.method (codes "GET"))) [
    | inl e ↦
        list_if_ids ids (refused (manager_backend S token) r (ok token)) s (refused_status r)
          (simp e at h)
    | inr e ↦ let h' = simp e at h in ground arith
  ]

  module _ (contents : S.State → Text → Option Bytes) (laws : StoreLaws S contents) where
    -- Over a store that keeps its laws: after a removal request for a pending report has been
    -- answered 200, an admin listing that is answered with ids holds exactly the other ids that were
    -- pending before.
    pub remove_via_post-reports :
        (id j : Text) (d : Bytes) (s : S.State) (removing listing : Request) (ids : List Text)
        → contents s (report_key pending id) ≡ some d
        → (remove_via_post (manager_backend S token) id removing s).0.status ≡ 200
        → (reports
            (manager_backend S token)
            listing
            (remove_via_post (manager_backend S token) id removing s).1).0.payload
          ≡ admin_list ids
        → In j ids ↔ ((j ≢ id) × (contents s (report_key pending j) ≢ none))
    remove_via_post-reports id j d s removing listing ids held done shown =
        let (moved, after) = remove_via_post_200 id removing s done in
        mark_removed-list_pending S contents laws id d s held ids j moved
          (reports_ids ids listing (mark_removed S id s).1 (rw after at shown))

-- New with no admin backend: whatever the request, the admin handlers answer 401, or 405 to a wrong
-- method, and change nothing.
pub deny_all_closed :
    {W : Type 0} (id : Text) (r : Request) (w : W)
    → (reports deny_all_backend r w ≡ (
      (if text_eq r.method (codes "GET") then unauthorized else method_not_allowed (codes "GET")),
      w,
    ))
      × (remove_via_post deny_all_backend id r w ≡ (
        (if text_eq r.method (codes "POST")
            then unauthorized
            else method_not_allowed (codes "POST")),
        w,
      ))
      × (remove_via_delete deny_all_backend id r w ≡ (
        (if text_eq r.method (codes "DELETE")
            then unauthorized
            else method_not_allowed (codes "DELETE")),
        w,
      ))
unfolding reports remove_via_post remove_via_delete remove refused is_empty
deny_all_closed id r w = (
  elim (Bool-cases (text_eq r.method (codes "GET"))) [ inl e ↦ rw e refl | inr e ↦ rw e refl ],
  elim (Bool-cases (text_eq r.method (codes "POST"))) [ inl e ↦ rw e refl | inr e ↦ rw e refl ],
  elim (Bool-cases (text_eq r.method (codes "DELETE"))) [ inl e ↦ rw e refl | inr e ↦ rw e refl ],
)
