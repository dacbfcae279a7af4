-- ===== src/Documents/Tasks.antt =====
-- The hourly tasks: documents past their date expire, and reminders are sent.
pub mod Expiry
use pexlo_portal.Prelude.{
  ℕ, ◌+◌, ◌*◌, Bool, false, not, none, some, List, [], ◌∷◌, ◌==◌, ◌&&◌, if◌then◌else◌, find_many,
  update_where, any, is_some, ltb, first_some,
}
use pexlo_portal.Documents.State.{
  expired, Document, Store, is_pending, update_document, log, notify, document_reminder,
  AuditAction,
}
use pexlo_portal.Documents.Lifecycle.{day_ms}
use pexlo_portal.Documents.Verdict.{is_past}

-- `where: { status: "pending", expiresAt: { lt: now } }`
abbrev pub is_expirable : ℕ → Document → Bool
is_expirable now d = is_pending d.status && is_past d.expires_at now

abbrev pub mark_expired : Document → Document
mark_expired d = record d { status = expired }

unfoldable pub log_expired : List Document → Store → Store
unfolding log
log_expired [] s = s
log_expired (d ∷ ds) s = log_expired ds (log d.id AuditAction.expired none s)

unfoldable pub expire_documents : ℕ → Store → Store
unfolding log_expired
expire_documents now s =
    let due = find_many (is_expirable now) s.documents in
    log_expired due (record s {
      documents =
          update_where (λ (d : Document). any (λ (e : Document). e.id == d.id) due) mark_expired
            s.documents;
    })

-- `where: { status: "pending", reminderEnabled: true, sentAt: { not: null } }`
abbrev pub is_remindable : Document → Bool
is_remindable d = is_pending d.status && d.reminder_enabled && is_some d.sent_at

-- When the last reminder, or the sending, lies a whole interval back, and the document is not past
-- its date.
abbrev pub reminder_due : ℕ → Document → Bool
reminder_due now d = elim (first_some d.last_reminder_at d.sent_at) [
  | none ↦ false
  | some last ↦
      not (ltb now (last + d.reminder_interval_days * day_ms)) && not (is_past d.expires_at now)
]

abbrev pub remind : ℕ → Document → Store → Store
remind now d s = log d.id AuditAction.reminder_sent none (
    update_document d.id (λ e. record e { last_reminder_at = some now })
      (notify (document_reminder d.id) s))

unfoldable pub remind_each : ℕ → List Document → Store → Store
unfolding log update_document notify
remind_each now [] s = s
remind_each now (d ∷ ds) s = remind_each now ds (if reminder_due now d then remind now d s else s)

unfoldable pub send_reminders : ℕ → Store → Store
unfolding remind_each
send_reminders now s = remind_each now (find_many is_remindable s.documents) s
