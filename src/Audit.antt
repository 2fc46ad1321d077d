-- ===== src/Audit.antt =====
-- apps/coordination-hub/src/observability/audit-log.service.ts: the listing of a producer's actions, and
-- the owner's view of the statistics, scan/verifications.controller.ts.
use qr_blockchain_anticounte.Prelude.{
  ℕ, Str, str_eq, List, [], ◌∷◌, ltb, take, filter_by, if◌then◌else◌,
}
use qr_blockchain_anticounte.Documents.{AuditEntry}
use qr_blockchain_anticounte.World.{Outside, Env, M, db_read, ◌>>◌}
use qr_blockchain_anticounte.Logs.Stats.{ProjectStats, get_project_stats}
use qr_blockchain_anticounte.Projects.{find_owned_by_producer}

-- `sort({ timestamp: -1 })`, where equal times stay in order
unfoldable pub insert_entry : AuditEntry → List AuditEntry → List AuditEntry
insert_entry e [] = e ∷ []
insert_entry e (f ∷ fs) = if ltb e.timestamp f.timestamp then f ∷ insert_entry e fs else e ∷ f ∷ fs

unfoldable pub sort_entries : List AuditEntry → List AuditEntry
sort_entries [] = []
sort_entries (e ∷ es) = insert_entry e (sort_entries es)

abbrev pub listed : (actor : Str) → (limit : ℕ) → List AuditEntry → List AuditEntry
listed actor limit es = take limit (sort_entries (filter_by (λ e. str_eq e.actor actor) es))

module _ (x : Outside) where
  unfoldable pub list_by_actor : (actor : Str) → (limit : ℕ) → M (List AuditEntry)
  list_by_actor actor limit = db_read x (λ w. listed actor limit w.audit)

  -- `getStats`, with the defaults of the service
  unfoldable pub get_stats : Env → (producer_id phi : Str) → M ProjectStats
  get_stats env producer_id phi =
      find_owned_by_producer x env producer_id phi >> get_project_stats x phi 30 50
