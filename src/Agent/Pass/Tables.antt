-- ===== src/Agent/Pass/Tables.antt =====
-- The table of agents after the writes of a pass.
use mathlib.Core.List.{append_assoc}
use mathlib.Core.Path.{◌≡⟨◌⟩◌, ◌∎}
use hill90_app.Prelude.{
  ◌≡◌, ◌≢◌, ap, sym, refl, inl, inr, Option, none, some, List, [], ◌∷◌, ◌++◌, map, String, arith,
  eq_iff, Option-cases,
}
use hill90_app.Prelude.Exec.{Result, ok, thrown}
use hill90_app.Agent.Reconcile.{Row, Patch, Container, decide, patch_of}
use hill90_app.Agent.Update.{patched_row, settle}
use hill90_app.Agent.Pass.{update_by_id}

-- Different agents have different primary keys.
abbrev pub Fresh : String → List Row → Type 0
Fresh id [] = Unit
Fresh id (row ∷ rows) = (row.id ≢ id) × Fresh id rows

abbrev pub Distinct : List Row → Type 0
Distinct [] = Unit
Distinct (row ∷ rows) = Fresh row.id rows × Distinct rows

update_by_id-Fresh :
    (id : String) (f : Row → Row) (rows : List Row) → Fresh id rows → update_by_id id f rows ≡ rows
unfolding update_by_id
update_by_id-Fresh id f [] h = refl
update_by_id-Fresh id f (row ∷ rows) (ne, h) =
    ground (arith, eq_iff row.id id, update_by_id-Fresh id f rows h)

-- The statement reaches exactly the row with that key.
update_by_id_at :
    (before : List Row) (row : Row) (after : List Row) (f : Row → Row)
    → Fresh row.id before
    → Fresh row.id after
    → update_by_id row.id f (before ++ row ∷ after) ≡ before ++ f row ∷ after
unfolding update_by_id
update_by_id_at [] row after f _ h =
    ground (arith, eq_iff row.id row.id, update_by_id-Fresh row.id f after h)
update_by_id_at (b ∷ before) row after f (ne, hb) h =
    ground (arith, eq_iff b.id row.id, update_by_id_at before row after f hb h)

decide-id :
    (row : Row) (seen : Result (Option Container)) (p : Patch)
    → patch_of (decide row seen) ≡ some p
    → p.id ≡ row.id
unfolding decide patch_of
decide-id row (thrown e) p h = ground arith
decide-id row (ok seen) p h = ground arith

Fresh-patched : (id : String) (p : Patch) (row : Row) → row.id ≢ id → (patched_row p row).id ≢ id
unfolding patched_row
Fresh-patched id p row h = h

module _ (inspect : String → Result (Option Container)) where
  abbrev pub settled : Row → Row
  settled row = settle row (inspect row.agent_id)

  unfoldable pub write : Row → List Row → List Row
  write row table = elim (patch_of (decide row (inspect row.agent_id))) [
    | none ↦ table
    | some p ↦ update_by_id p.id (patched_row p) table
  ]

  unfoldable pub write_all : List Row → List Row → List Row
  unfolding write
  write_all [] table = table
  write_all (row ∷ rows) table = write_all rows (write row table)

  settled-id : (row : Row) → (settled row).id ≡ row.id
  unfolding settle
  settled-id row = ground arith

  write-settled :
      (before : List Row) (row : Row) (after : List Row)
      → Fresh row.id before
      → Fresh row.id after
      → write row (before ++ row ∷ after) ≡ before ++ settled row ∷ after
  unfolding write settle
  write-settled before row after hb ha =
      elim (Option-cases (patch_of (decide row (inspect row.agent_id)))) [
        | inl quiet ↦ ground (arith, quiet)
        | inr (p, patch) ↦
            let same = decide-id row (inspect row.agent_id) p patch in
            let at_row : update_by_id p.id (patched_row p) (before ++ row ∷ after)
                ≡ before ++ patched_row p row ∷ after =
              rw same (update_by_id_at before row after (patched_row p) hb ha) in
            ground (arith, patch, at_row)
      ]

  Fresh-append : (id : String) (xs ys : List Row) → Fresh id xs → Fresh id ys → Fresh id (xs ++ ys)
  Fresh-append id [] ys hx hy = hy
  Fresh-append id (x ∷ xs) ys (ne, hx) hy = (ne, Fresh-append id xs ys hx hy)

  -- The rows still to come are new to those before them, which may have been written.
  abbrev FreshAfter : List Row → List Row → Type 0
  FreshAfter before [] = Unit
  FreshAfter before (row ∷ rows) = Fresh row.id before × FreshAfter before rows

  FreshAfter-snoc :
      (before : List Row) (row : Row) (rows : List Row)
      → FreshAfter before rows
      → Fresh row.id rows
      → FreshAfter (before ++ settled row ∷ []) rows
  FreshAfter-snoc before row [] h d = tt
  FreshAfter-snoc before row (r ∷ rows) (hr, h) (ne, d) = (
    Fresh-append r.id before (settled row ∷ []) hr (rw (settled-id row) (λ e. ne (sym e)), tt),
    FreshAfter-snoc before row rows h d,
  )

  write_all-settled :
      (before rows : List Row)
      → Distinct rows
      → FreshAfter before rows
      → write_all rows (before ++ rows) ≡ before ++ map settled rows
  unfolding write_all
  write_all-settled before [] d h = refl
  write_all-settled before (row ∷ rows) (new, d) (fresh, h) =
      write_all rows (write row (before ++ row ∷ rows))
      ≡⟨ ap (write_all rows) (write-settled before row rows fresh new) ⟩
        write_all rows (before ++ settled row ∷ rows)
      ≡⟨ ap (write_all rows) (sym (append_assoc before (settled row ∷ []) rows)) ⟩
        write_all rows ((before ++ settled row ∷ []) ++ rows)
      ≡⟨ write_all-settled (before ++ settled row ∷ []) rows d
          (FreshAfter-snoc before row rows h new) ⟩
        (before ++ settled row ∷ []) ++ map settled rows
      ≡⟨ append_assoc before (settled row ∷ []) (map settled rows) ⟩
        before ++ map settled (row ∷ rows) ∎

  FreshAfter-nil : (rows : List Row) → FreshAfter [] rows
  FreshAfter-nil [] = tt
  FreshAfter-nil (row ∷ rows) = (tt, FreshAfter-nil rows)

  pub write_all-map : (rows : List Row) → Distinct rows → write_all rows rows ≡ map settled rows
  write_all-map rows d = write_all-settled [] rows d (FreshAfter-nil rows)
