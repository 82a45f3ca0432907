-- ===== src/Schedule/Dispatch/Outcome.antt =====
-- What one execution of a workflow leaves behind, whichever statements fail.
use hill90_app.Prelude.{
  ℕ, ◌+◌, ◌≤◌, ◌≡◌, ◌∙◌, refl, Bool, Option, none, [], ◌∷◌, String, arith, length, length-append,
}
use hill90_app.Prelude.Exec.{Result, ok, thrown, Exec, ◌>>=◌}
use hill90_app.Schedule.Store.{Work, Store}
use hill90_app.Schedule.Dispatch.{
  Due, Response, compute_next_run, record_failure, insert_thread, insert_participant,
  insert_message, dispatch_chat_work, set_run_thread, check_accepted, dispatch_run, mark_run_failed,
  guarded_dispatch, next_or_record, DispatchResult,
}

-- Code that leaves the schedule alone and sends at most `n` requests, whether it returns or throws.
record Sends {A : Type 0} (n : ℕ) (m : Exec Store A) : Type 0 where
  schedule : (s : Store) → (m s).1.workflows ≡ s.workflows
  requests : (s : Store) → length (m s).1.dispatched ≤ length s.dispatched + n

Sends-bind :
    {A B : Type 0} {i j : ℕ} {m : Exec Store A} {f : A → Exec Store B}
    → Sends i m
    → ((a : A) → Sends j (f a))
    → Sends (i + j) (m >>= f)
Sends-bind {A = A} {i = i} {j = j} {m = m} {f = f} h k = record {
  schedule = λ s. go_schedule s (m s).0 refl;
  requests = λ s. go_requests s (m s).0 refl;
}
  where
    go_schedule : (s : Store) (r : Result A) → (m s).0 ≡ r → ((m >>= f) s).1.workflows ≡ s.workflows
    go_schedule s (ok a) e = rw (◌>>=◌, e) ((k a).schedule (m s).1 ∙ h.schedule s)
    go_schedule s (thrown x) e = rw (◌>>=◌, e) (h.schedule s)

    go_requests :
        (s : Store) (r : Result A)
        → (m s).0 ≡ r
        → length ((m >>= f) s).1.dispatched ≤ length s.dispatched + (i + j)
    go_requests s (ok a) e = rw (◌>>=◌, e) (omega (arith, (k a).requests (m s).1, h.requests s))
    go_requests s (thrown x) e = rw (◌>>=◌, e) (omega (arith, h.requests s))

module _ (fails : ℕ → Bool) (parse_next : String → Result ℕ) (fetch : Work → Result Response)
    (now : ℕ) where
  -- What a part of the code leaves alone: the schedule, and the requests sent so far.
  abbrev pub Quiet : Store → Store → Type 0
  Quiet s t = (t.workflows ≡ s.workflows) × (t.dispatched ≡ s.dispatched)

  pub record_failure-Quiet :
      (id message : String) (s : Store)
      → Quiet s (record_failure fails parse_next fetch now id message s)
  unfolding record_failure
  record_failure-Quiet id message s = ground arith

  -- The next run that is stored: none for no schedule and for an invalid one.
  abbrev pub next_of : Due → Option ℕ
  next_of wf = elim (compute_next_run parse_next wf.schedule_cron) [
    | ok next ↦ next
    | thrown e ↦ none
  ]

  pub next_or_record-next :
      (wf : Due) (s : Store)
      → ((next_or_record fails parse_next fetch now wf s).0 ≡ next_of wf)
        × Quiet s (next_or_record fails parse_next fetch now wf s).1
  unfolding next_or_record
  next_or_record-next wf s = ground (arith, λ (e : String). record_failure-Quiet wf.id e s)

  Sends-insert_thread : (title : String) → Sends 0 (insert_thread fails parse_next fetch now title)
  unfolding insert_thread
  Sends-insert_thread title = record { schedule = λ s. ground arith; requests = λ s. ground arith }

  Sends-insert_participant :
      (t : ℕ) (id type : String) → Sends 0 (insert_participant fails parse_next fetch now t id type)
  unfolding insert_participant
  Sends-insert_participant t id type = record {
    schedule = λ s. ground arith;
    requests = λ s. ground arith;
  }

  Sends-insert_message :
      (t : ℕ) (id text : String) → Sends 0 (insert_message fails parse_next fetch now t id text)
  unfolding insert_message
  Sends-insert_message t id text = record {
    schedule = λ s. ground arith;
    requests = λ s. ground arith;
  }

  Sends-dispatch_chat_work :
      (work : Work) → Sends 1 (dispatch_chat_work fails parse_next fetch now work)
  unfolding dispatch_chat_work
  Sends-dispatch_chat_work work = record {
    schedule = λ s. ground arith;
    requests = λ s. ground (arith, length-append s.dispatched (work ∷ []));
  }

  Sends-set_run_thread : (r t : ℕ) → Sends 0 (set_run_thread fails parse_next fetch now r t)
  unfolding set_run_thread
  Sends-set_run_thread r t = record { schedule = λ s. ground arith; requests = λ s. ground arith }

  Sends-check_accepted :
      (d : DispatchResult) → Sends 0 (check_accepted fails parse_next fetch now d)
  unfolding check_accepted
  Sends-check_accepted d = record { schedule = λ s. ground arith; requests = λ s. ground arith }

  ruleset sends_rules = (
    Sends-bind, Sends-insert_thread, Sends-insert_participant, Sends-insert_message,
    Sends-dispatch_chat_work, Sends-set_run_thread, Sends-check_accepted,
  )

  Sends-dispatch_run :
      (wf : Due) (run_id : ℕ) → Sends 1 (dispatch_run fails parse_next fetch now wf run_id)
  unfolding dispatch_run
  Sends-dispatch_run wf run_id = Sends-bind (Sends-insert_thread _) λ t.
      Sends-bind (Sends-insert_participant t _ _) λ _.
        Sends-bind (Sends-insert_participant t _ _) λ _.
          Sends-bind (Sends-insert_message t _ _) λ m.
            Sends-bind (Sends-dispatch_chat_work _)
              λ d. Sends-bind (Sends-set_run_thread run_id t) λ _. Sends-check_accepted d

  mark_run_failed-Quiet :
      (run_id : ℕ) (e : String) (s : Store)
      → Quiet s (mark_run_failed fails parse_next fetch now run_id e s)
  unfolding mark_run_failed
  mark_run_failed-Quiet run_id e s = ground arith

  pub guarded_dispatch-Sends :
      (wf : Due) (run_id : ℕ) (s : Store)
      → ((guarded_dispatch fails parse_next fetch now wf run_id s).workflows ≡ s.workflows)
        × (length (guarded_dispatch fails parse_next fetch now wf run_id s).dispatched
            ≤ length s.dispatched + 1)
  unfolding guarded_dispatch
  guarded_dispatch-Sends wf run_id s = ground (
    arith,
    (Sends-dispatch_run wf run_id).schedule s,
    (Sends-dispatch_run wf run_id).requests s,
    mark_run_failed-Quiet run_id,
  )
