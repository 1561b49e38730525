-- ===== src/FactoryCloud/Orchestrator/Canonical.antt =====
-- The canonical source of every app stays as the registry has set it, whatever the adapters do.
use obrasignal.Base.{
  ◌≡◌, refl, ap, ◌∙◌, ℕ, zero, suc, String, Option, none, some, List, arith, map, inl, inr,
  Option-cases,
}
use obrasignal.Base.Int.{ℤ}
use obrasignal.Base.Json.{Fields}
use obrasignal.Base.Result.{Result, ok, err, Result-cases}
use obrasignal.FactoryCloud.Adapters.{Adapter, ExecutionResult, for_app}
use obrasignal.FactoryCloud.StateStore.{App, AppState, Store, Payload, get_app, is_app}
use obrasignal.FactoryCloud.StateStore.Calls.{
  checkpoint, checkpointed, start_execution, finish_execution, executing,
}
use obrasignal.FactoryCloud.StateStore.Laws.{map-update}
use obrasignal.FactoryCloud.Orchestrator.{Decision, choose_next, priority_score}
use obrasignal.FactoryCloud.Orchestrator.Checkpoint.{
  changes_of, checkpoint_result, validated_result,
}
use obrasignal.FactoryCloud.Orchestrator.Cycle.{
  execute_one, record_result, run_one, dispatch_loop, prepend, Dispatch, request_of, adapter_result,
  goes_on,
}

-- What the registry alone decides of a row.
pub record Canonical : Type 0 where
  pub app_id : String
  pub mission : String
  pub repo_source : Option String
  pub canonical_head : Option String
  pub runtime : Option String
  pub priority : ℤ

abbrev canonical_of : AppState → Canonical
canonical_of a = record {
  app_id = a.app_id;
  mission = a.mission;
  repo_source = a.repo_source;
  canonical_head = a.canonical_head;
  runtime = a.runtime;
  priority = a.priority;
}

abbrev pub canonical : Store → List Canonical
canonical s = map canonical_of s.apps

changes_of-canonical :
    (d : Decision) (r : ExecutionResult) (now : ℕ) (a b : AppState)
    → canonical_of (checkpointed (changes_of d r now a) now b) ≡ canonical_of b
unfolding changes_of
changes_of-canonical d r now a b = ground arith

start_execution-canonical :
    (app_id id task : String) (p : Payload) (now : ℕ) (s : Store) {t : Store}
    → start_execution app_id id task p now s ≡ ok t
    → canonical t ≡ canonical s
unfolding start_execution
start_execution-canonical app_id id task p now s {t} h =
    ground
      (arith, map-update canonical_of (is_app app_id) (executing task p now) (λ a. refl) s.apps)

finish_execution-canonical :
    (app_id id status : String) (evidence : Fields) (error : Option Fields) (now : ℕ) (s : Store)
    {t : Store}
    → finish_execution app_id id status evidence error now s ≡ ok t
    → canonical t ≡ canonical s
unfolding finish_execution
finish_execution-canonical app_id id status evidence error now s {t} h = ground arith

checkpoint_result-canonical :
    (d : Decision) (r : ExecutionResult) (now : ℕ) (s : Store) {t : Store}
    → checkpoint_result d r now s ≡ ok t
    → canonical t ≡ canonical s
unfolding checkpoint_result checkpoint
checkpoint_result-canonical d r now s {t} h = elim (Option-cases (get_app d.app_id s)) [
  | inl e ↦ ground arith
  | inr (a, e) ↦ ground (
    arith,
    map-update canonical_of (is_app d.app_id) (checkpointed (changes_of d r now a) now)
        (changes_of-canonical d r now a) s.apps,
  )
]

record_result-canonical :
    (id : String) (d : Decision) (r : ExecutionResult) (now : ℕ) (s : Store)
    → canonical (record_result id d r now s).1 ≡ canonical s
unfolding record_result
record_result-canonical id d r now s =
    elim (Result-cases (finish_execution d.app_id id r.status r.evidence r.error now s)) [
      | inr (x, e) ↦ ground arith
      | inl (t, e) ↦
          let kept = finish_execution-canonical d.app_id id r.status r.evidence r.error now s e in
          elim (Result-cases (checkpoint_result d r now t)) [
            | inr (x, f) ↦ ground (arith, kept)
            | inl (u, f) ↦ ground (arith, checkpoint_result-canonical d r now t f ∙ kept)
          ]
    ]

execute_one-canonical :
    (registry : List App) (overrides : String → Option Adapter) (id : String) (now : ℕ)
    (d : Decision) (s : Store)
    → canonical (execute_one registry overrides id now d s).1 ≡ canonical s
unfolding execute_one
execute_one-canonical registry overrides id now d s =
    elim (Result-cases (
      start_execution d.app_id id d.task (record { execution_id = id; request = request_of d }) now
        s)) [
          | inr (x, e) ↦ ground arith
          | inl (t, e) ↦
              let kept = start_execution-canonical d.app_id id d.task _ now s e in
              elim (Option-cases (for_app overrides d.app_id d.mode)) [
                | inl f ↦ ground (arith, kept)
                | inr (adapter, f) ↦
                    elim (Result-cases
                      (validated_result registry d (adapter_result d (adapter (request_of d))))) [
                        | inr (x, g) ↦ ground (arith, kept)
                        | inl (r, g) ↦ ground (arith, record_result-canonical id d r now t ∙ kept)
                      ]
              ]
        ]

module _ (registry : List App) (int_of_text : String → Option ℤ)
    (host : ℕ → String → Option Adapter) (ids : ℕ → String) (clock : ℕ → ℕ) where
  run_one-store :
      (k : ℕ) (attempted : List String) (d : Decision) (s : Store)
      → (run_one registry int_of_text host ids clock k attempted d s).1
        ≡ (execute_one registry (host k) (ids k) (clock k) d s).1
  unfolding run_one
  run_one-store k attempted d s =
      elim (Result-cases (execute_one registry (host k) (ids k) (clock k) d s).0) [
        | inr (x, e) ↦ ground arith
        | inl (r, e) ↦ elim (Result-cases (priority_score int_of_text registry d.app_id)) [
          | inr (x, f) ↦ ground arith
          | inl (n, f) ↦
              elim (Result-cases (
                goes_on registry (clock k) d r
                  (execute_one registry (host k) (ids k) (clock k) d s).1)) [
                    | inr (x, g) ↦ ground arith
                    | inl (more, g) ↦ ground arith
                  ]
        ]
      ]

  prepend-store : (x : Dispatch) (o : Result _ _ × Store) → (prepend x o).1 ≡ o.1
  prepend-store x (ok (xs, attempted), s) = refl
  prepend-store x (err e, s) = refl

  -- No dispatch of a cycle, whatever its adapter returns or raises, changes the mission, the source,
  -- the canonical head, the runtime or the priority of any app, and none adds or removes an app.
  pub dispatch_loop-canonical :
      (left k : ℕ) (attempted : List String) (s : Store)
      → canonical (dispatch_loop registry int_of_text host ids clock left k attempted s).1
        ≡ canonical s
  unfolding dispatch_loop
  dispatch_loop-canonical zero k attempted s = refl
  dispatch_loop-canonical (suc left) k attempted s =
      elim (Result-cases (choose_next int_of_text registry (clock k) attempted s)) [
        | inr (x, e) ↦ ground arith
        | inl (none, e) ↦ ground arith
        | inl (some d, e) ↦
            let kept =
              ap canonical (run_one-store k attempted d s)
              ∙ execute_one-canonical registry (host k) (ids k) (clock k) d s in
            elim (Result-cases (run_one registry int_of_text host ids clock k attempted d s).0) [
              | inr (x, f) ↦ ground (arith, kept)
              | inl (r, f) ↦
                  let t = (run_one registry int_of_text host ids clock k attempted d s).1 in
                  ground (
                    arith,
                    kept,
                    prepend-store r.0
                        (dispatch_loop registry int_of_text host ids clock left (suc k) r.1 t),
                    dispatch_loop-canonical left (suc k) r.1 t,
                  )
            ]
      ]
