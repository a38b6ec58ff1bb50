-- ===== src/Events/Registry.antt =====
-- The registered events (`EVENT_CONTRACTS` of core/event_contract.py) and the routing keys that
-- carry them (core/bus/topics.py).
use lkm_service.Events.{Arg, EventContract}
use lkm_service.Prelude.{[], List, String, ◌∷◌, true, false, text_key, nat_key}

abbrev pub rkey_send_code : String
rkey_send_code = "event.send_code"

abbrev pub rkey_send_magic : String
rkey_send_magic = "event.send_magic_link"

abbrev pub rkey_notify : String
rkey_notify = "event.notify_upload"

abbrev pub rkey_points : String
rkey_points = "event.apply_point"

abbrev pub rkey_user_updated : String
rkey_user_updated = "event.user.updated"

abbrev pub rkey_user_banned : String
rkey_user_banned = "event.user.banned"

abbrev pub rkey_user_session_revoke : String
rkey_user_session_revoke = "event.user.session_revoke"

abbrev pub rkey_cleanup : String
rkey_cleanup = "cron.cleanup"

abbrev pub rkey_reconcile : String
rkey_reconcile = "cron.reconcile"

abbrev pub rkey_analytics : String
rkey_analytics = "cron.analytics_export"

abbrev pub rkey_ops_daily : String
rkey_ops_daily = "cron.ops_daily"

abbrev pub rkey_bloom_seed : String
rkey_bloom_seed = "cron.bloom_seed"

abbrev pub rkey_review_digest : String
rkey_review_digest = "cron.review_digest"

abbrev pub rkey_content_published : String
rkey_content_published = "event.content.published"

abbrev pub rkey_content_updated : String
rkey_content_updated = "event.content.updated"

abbrev pub rkey_content_deleted : String
rkey_content_deleted = "event.content.deleted"

abbrev pub rkey_file_changed : String
rkey_file_changed = "event.file.changed"

abbrev pub rkey_audit_login_fail : String
rkey_audit_login_fail = "audit.login_fail"

abbrev pub rkey_audit_permission_change : String
rkey_audit_permission_change = "audit.permission_change"

abbrev pub plain_arg : String → String → Arg
plain_arg name kind = record { name = name; kind = kind; nullable = false; optional = false }

abbrev pub nullable_arg : String → String → Arg
nullable_arg name kind = record (plain_arg name kind) { nullable = true }

abbrev pub optional_arg : String → String → Arg
optional_arg name kind = record (plain_arg name kind) { optional = true }

abbrev pub event_contract : String → List String → List Arg → EventContract
event_contract fn routing_keys args = record { fn = fn; routing_keys = routing_keys; args = args }

-- A task of the scheduler has no arguments.
abbrev pub cron : String → String → EventContract
cron fn routing_key = event_contract fn (routing_key ∷ []) []

abbrev pub event_contracts : List EventContract
event_contracts =
    event_contract "send_code" (rkey_send_code ∷ [])
      (plain_arg "channel_key" "str" ∷ plain_arg "contact" "str" ∷ plain_arg "code" "str" ∷ [])
    ∷ event_contract "send_magic_link" (rkey_send_magic ∷ [])
        (plain_arg "email" "str" ∷ plain_arg "link" "str" ∷ [])
    ∷ event_contract "invalidate_user_snap"
        (rkey_user_updated ∷ rkey_user_banned ∷ rkey_user_session_revoke ∷ [])
        (plain_arg "user_id" "str" ∷ [])
    ∷ event_contract "record_audit_event"
        (rkey_audit_login_fail ∷ rkey_audit_permission_change ∷ [])
        (nullable_arg "user_id" "str" ∷ plain_arg "action" "str" ∷ optional_arg "detail" "str" ∷ [])
    ∷ event_contract "notify_upload" (rkey_notify ∷ []) (plain_arg "upload_id" "str" ∷ [])
    ∷ event_contract "apply_point_event" (rkey_points ∷ [])
        (plain_arg "user_id" "str" ∷ plain_arg "event" "str" ∷ plain_arg "ref_id" "str" ∷ [])
    ∷ event_contract "apply_content_event"
        (rkey_content_published ∷ rkey_content_updated ∷ rkey_content_deleted ∷ [])
        (plain_arg "item_id" "str" ∷ plain_arg "action" "str" ∷ [])
    ∷ event_contract "apply_file_event" (rkey_file_changed ∷ []) (plain_arg "file_id" "str" ∷ [])
    ∷ cron "cleanup_expired_uploads" rkey_cleanup
    ∷ cron "archive_cold_files" rkey_cleanup
    ∷ cron "backup_approved_files" rkey_cleanup
    ∷ cron "flush_content_counters" rkey_cleanup
    ∷ cron "purge_revoked_access_tokens" rkey_cleanup
    ∷ cron "purge_stale_view_logs" rkey_cleanup
    ∷ cron "fanout_feed_items" rkey_reconcile
    ∷ cron "reconcile_blog_repos" rkey_reconcile
    ∷ cron "reconcile_content_counts" rkey_reconcile
    ∷ cron "reconcile_content_counts_full" rkey_reconcile
    ∷ cron "expire_qa_bounties" rkey_cleanup
    ∷ cron "reconcile_user_dim" rkey_reconcile
    ∷ cron "export_analytics_clickhouse" rkey_analytics
    ∷ cron "run_ops_daily" rkey_ops_daily
    ∷ cron "seed_user_id_bloom" rkey_bloom_seed
    ∷ cron "send_review_digest" rkey_review_digest
    ∷ []
