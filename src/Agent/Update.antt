-- ===== src/Agent/Update.antt =====
-- services/api/src/services/agent-reconciler.ts: the UPDATE that writes a patch to its row.
use hill90_app.Prelude.{Option, none, some, or_else}
use hill90_app.Agent.Reconcile.{Row, Patch, Container, decide, patch_of}
use hill90_app.Prelude.Exec.{Result}

-- The columns that the statement sets; those that the patch has no opinion on stay.
unfoldable pub patched_row : Patch → Row → Row
patched_row p row = record row {
  status = p.status;
  container_state = p.container_state;
  container_id = or_else p.container_id row.container_id;
  error_message = or_else p.error_message row.error_message;
  container_finished_at = or_else p.container_finished_at row.container_finished_at;
}

-- One agent's row after a round of reconciliation whose writes succeed.
unfoldable pub settle : Row → Result (Option Container) → Row
unfolding patched_row
settle row seen = elim (patch_of (decide row seen)) [ none ↦ row | some p ↦ patched_row p row ]
