-- ===== src/Approval/Repository.antt =====
-- approval/ports.py: the in-memory repository. Each method holds the lock and never waits inside,
-- so it is one step.
use rev_pilot_ai.Base.{
  String, ◌≡◌, ◌&&◌, Option, some, List, keep_if, sort_by, str_eq, if◌then◌else◌,
}
use rev_pilot_ai.Base.Dict.{Nested, values, inner, find, store, find-store}
use rev_pilot_ai.Approval.Domain.{ApprovalRequestRecord, is_pending}

-- `_storage`: tenant, then request
abbrev pub Storage : Type 0
Storage = Nested ApprovalRequestRecord

unfoldable pub get : String → String → Storage → Option ApprovalRequestRecord
get tenant_id approval_id s = find tenant_id approval_id s

unfoldable pub save : ApprovalRequestRecord → Storage → Storage
save r s = store r.tenant_id r.approval_id r s

-- The text of `update` is that of `save`.
unfoldable pub update : ApprovalRequestRecord → Storage → Storage
update r s = store r.tenant_id r.approval_id r s

unfoldable pub list_pending : String → Storage → List ApprovalRequestRecord
list_pending tenant_id s =
    sort_by (λ r. r.created_at) (keep_if (λ r. is_pending r.status) (values (inner tenant_id s)))

unfoldable pub list_all : String → Storage → List ApprovalRequestRecord
list_all tenant_id s = sort_by (λ r. r.created_at) (values (inner tenant_id s))

pub get-update :
    (t a : String) (r : ApprovalRequestRecord) (s : Storage)
    → get t a (update r s)
      ≡ (if str_eq r.tenant_id t && str_eq r.approval_id a then some r else get t a s)
unfolding get update
get-update t a r s = find-store r.tenant_id r.approval_id r t a s

pub get-save :
    (t a : String) (r : ApprovalRequestRecord) (s : Storage)
    → get t a (save r s)
      ≡ (if str_eq r.tenant_id t && str_eq r.approval_id a then some r else get t a s)
unfolding get save
get-save t a r s = find-store r.tenant_id r.approval_id r t a s
