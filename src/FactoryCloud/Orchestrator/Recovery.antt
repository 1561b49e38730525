-- ===== src/FactoryCloud/Orchestrator/Recovery.antt =====
-- What the recovery at the start makes of an execution that was interrupted.
use obrasignal.Base.{
  ◌≡◌, refl, ℕ, ◌+◌, String, true, Option, none, some, arith, inl, inr, Bool-cases,
}
use obrasignal.Base.Text.{◌==◌, nonempty, strip}
use obrasignal.Base.Json.{Fields, end, field, str}
use obrasignal.Base.Result.{ok, Result-cases}
use obrasignal.FactoryCloud.StateStore.{AppState, Payload, Store, get_app}
use obrasignal.FactoryCloud.StateStore.Calls.{checkpoint, checkpointed, finish_execution}
use obrasignal.FactoryCloud.StateStore.Laws.{checkpoint-get_app}
use obrasignal.FactoryCloud.Orchestrator.Cycle.{
  recover_app, recovery, interruption, interrupted_task, close_history,
}

finish_execution-apps :
    (app_id id status : String) (evidence : Fields) (error : Option Fields) (now : ℕ) (s : Store)
    {t : Store}
    → finish_execution app_id id status evidence error now s ≡ ok t
    → t.apps ≡ s.apps
unfolding finish_execution
finish_execution-apps app_id id status evidence error now s h = ground arith

close_history-apps :
    (iso : ℕ → String) (app_id id task : String) (now : ℕ) (s : Store)
    → (close_history iso app_id id task now s).1.apps ≡ s.apps
unfolding close_history
close_history-apps iso app_id id task now s = elim (Bool-cases (nonempty id)) [
  | inr e ↦ ground arith
  | inl e ↦
      let evidence = field "recovered_at" (str (iso now)) (field "resume_at" (str task) end) in
      let error = some (interruption task id end) in
      elim (Result-cases (finish_execution app_id id "INTERRUPTED" evidence error now s)) [
        | inl (t, f) ↦
            ground (arith, finish_execution-apps app_id id "INTERRUPTED" evidence error now s f)
        | inr (x, f) ↦ ground arith
      ]
]

-- The recovery of an app whose row says that it executes a task makes the row READY, at that task,
-- with no execution and one interruption more, whether or not the history could be closed.
pub recover_app-IsReady :
    (iso : ℕ → String) (now : ℕ) (a : AppState) (p : Payload) (s : Store) {t : Store}
    → get_app a.app_id s ≡ some a
    → (a.state == "EXECUTING") ≡ true
    → a.current_execution ≡ some p
    → recover_app iso now a s ≡ ok t
    → (a' : AppState) × (get_app a.app_id t ≡ some a')
      × (a'.state ≡ "READY")
      × (a'.active ≡ interrupted_task a p)
      × (a'.resume_at ≡ interrupted_task a p)
      × (a'.current_execution ≡ none)
      × (a'.retry_state.interrupted_count ≡ a.retry_state.interrupted_count + 1)
unfolding recover_app
recover_app-IsReady iso now a p s {t} g executing current h =
    let task = interrupted_task a p in
    let closed = close_history iso a.app_id (strip p.execution_id) task now s in
    let cs = recovery task closed.0 now a in
    let found : get_app a.app_id closed.1 ≡ some a =
      ground (arith, close_history-apps iso a.app_id (strip p.execution_id) task now s) in
    let stored : checkpoint a.app_id cs now closed.1 ≡ ok t = ground arith in
    let (row, _) = checkpoint-get_app a.app_id cs now closed.1 found stored in
    (checkpointed cs now a, row, refl, refl, refl, refl, refl)
