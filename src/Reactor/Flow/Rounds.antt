-- ===== src/Reactor/Flow/Rounds.antt =====
-- The loops of `run` in crates/torvyn-reactor/src/flow_driver.rs do not panic and keep the credits.
use torvyn.Common.{
  ℕ, ◌≡◌, ◌⊎◌, refl, sym, ap, subst, ◌∙◌, inl, inr, some, List, [], ◌∷◌, arith, Text, length,
  returns, Run, Bool-cases, Option-cases,
}
use torvyn.Reactor.Streams.{StreamState}
use torvyn.Reactor.Streams.Credit.{AllSteady, AllSteady-at}
use torvyn.Reactor.Topology.{FlowTopology}
use torvyn.Reactor.Scheduling.{StreamIndex, StageExecution, next_ready_stage}
use torvyn.Reactor.Scheduling.Ready.{AreNamed, next_ready_stage-IsRunnable}
use torvyn.Reactor.Scheduling.Picked.{next_ready_stage-stage_index}
use torvyn.Reactor.Scheduling.Wired.{IsWired, next_ready_stage-Returns}
use torvyn.Reactor.Cancellation.{source_complete}
use torvyn.Reactor.Driver.{FlowDriver, Invoker, Outcome, errored, execute_stage}
use torvyn.Reactor.Driver.Streams.{IsSound, Follows, follow}
use torvyn.Reactor.Driver.Stages.{execute_stage-IsSound}
use torvyn.Reactor.Upkeep.{check_backpressure_all, all_streams_complete}
use torvyn.Reactor.Upkeep.Checks.{
  check_backpressure_all-AllSteady, propagate-AllSteady, discard_all-AreEmpty, AreEmpty,
}
use torvyn.Reactor.Flow.{
  ErrorPolicy, fail_fast, Wait, woke, cancelled_while_waiting, deadline_passed, Moment, Flow,
  Verdict, go_on, stop, hear, end_with, after_stage, after_wait, idle, work, act, proceed, round,
  run_rounds, drain_rounds, drain_queues,
}

-- The driver is sound, its index fits the topology, and it has an instance for each stage.
pub record IsFit (topology : FlowTopology) (d : FlowDriver) : Type 0 where
  pub sound : IsSound d
  pub wired : IsWired topology d.stream_index (length d.streams)
  pub staffed : length d.instances ≡ length topology.stages

named : (d : FlowDriver) → IsSound d → AreNamed d.streams
unfolding AreNamed
named d v i s at = (AllSteady-at i d.streams s v.steady at).named

follow-IsFit :
    (topology : FlowTopology) (d d' : FlowDriver)
    → IsFit topology d
    → IsSound d'
    → length d'.streams ≡ length d.streams
    → d'.stream_index ≡ d.stream_index
    → d'.instances ≡ d.instances
    → IsFit topology d'
follow-IsFit topology d d' v w same_length same_index same_instances = record {
  sound = w;
  wired =
      subst (λ (index : StreamIndex). IsWired topology index (length d'.streams)) (sym same_index)
        (subst (λ n. IsWired topology d.stream_index n) (sym same_length) v.wired);
  staffed = ap length same_instances ∙ v.staffed;
}

pub restream :
    (topology : FlowTopology) (d : FlowDriver) (streams : List StreamState)
    → IsFit topology d
    → AllSteady 0 streams
    → length streams ≡ length d.streams
    → IsFit topology (record d { streams = streams })
unfolding Follows
restream topology d streams v w same =
    let d' : FlowDriver = record d { streams = streams } in
    follow-IsFit topology d d' v (follow d d' v.sound w same refl refl refl).0 same refl refl

pub Verdict-cases : (v : Verdict) → (v ≡ stop) ⊎ (v ≡ go_on)
Verdict-cases stop = inl refl
Verdict-cases go_on = inr refl

module _ (topology : FlowTopology) where
  -- A stage that the policy picks runs, and leaves a fit driver.
  stage_runs :
      (now : ℕ) (invoker : Invoker) (d : FlowDriver) (e : StageExecution)
      → IsFit topology d
      → next_ready_stage topology d.streams d.stream_index ≡ returns (some e)
      → (d' : FlowDriver) × (outcome : Outcome) × (execute_stage now invoker d e
          ≡ returns (d', outcome))
        × IsFit topology d'
  stage_runs now invoker d e v h =
      let (d', outcome, run, sound, same_length, same_index, same_instances) =
        execute_stage-IsSound now invoker d e v.sound
          (omega
            (arith, v.staffed, next_ready_stage-stage_index topology d.streams d.stream_index e h))
          (next_ready_stage-IsRunnable topology d.streams d.stream_index e (named d v.sound) h) in
      (d', outcome, run, follow-IsFit topology d d' v sound same_length same_index same_instances)

  after_stage-IsFit :
      (show_duration : ℕ → Text) (policy : ErrorPolicy) (now : ℕ) (e : StageExecution) (f : Flow)
      (outcome : Outcome)
      → IsFit topology f.driver
      → IsFit topology (after_stage show_duration policy now e f outcome).0.driver
  unfolding after_stage end_with
  after_stage-IsFit show_duration fail_fast now e f (errored err) v = v
  after_stage-IsFit show_duration policy now e f outcome v =
      let (steady, same) = check_backpressure_all-AllSteady now 0 f.driver.streams v.sound.steady in
      restream topology f.driver (check_backpressure_all now 0 f.driver.streams).0 v steady same

  after_wait-driver : (f : Flow) (wait : Wait) → (after_wait f wait).0.driver ≡ f.driver
  unfolding after_wait end_with
  after_wait-driver f woke = refl
  after_wait-driver f (cancelled_while_waiting reason) = refl
  after_wait-driver f (deadline_passed elapsed) = refl

  -- A run of a loop that returns a fit driver.
  abbrev Fits : Run (Flow × Verdict) → Type 0
  Fits r = (f : Flow) × (verdict : Verdict) × (r ≡ returns (f, verdict)) × IsFit topology f.driver

  idle-IsFit : (wait : Wait) (f : Flow) → IsFit topology f.driver → Fits (idle topology wait f)
  unfolding idle end_with
  idle-IsFit wait f v =
      let (streams, run, steady, same) =
        propagate-AllSteady topology f.driver.stream_index f.driver.streams v.wired
          v.sound.steady in
      let next : Flow = record f { driver = record f.driver { streams = streams } } in
      let fit = restream topology f.driver streams v steady same in
      elim (Bool-cases (all_streams_complete streams)) [
        | inl complete ↦
            let ended = end_with next source_complete in
            (ended.0, ended.1, rw (run, complete) refl, fit)
        | inr waits ↦
            let ended = after_wait next wait in
            (
              ended.0,
              ended.1,
              rw (run, waits) refl,
              subst (IsFit topology) (sym (after_wait-driver next wait)) fit,
            )
      ]

  work-IsFit :
      (show_duration : ℕ → Text) (policy : ErrorPolicy) (now : ℕ) (invoker : Invoker) (f : Flow)
      (e : StageExecution)
      → IsFit topology f.driver
      → next_ready_stage topology f.driver.streams f.driver.stream_index ≡ returns (some e)
      → Fits (work show_duration policy now invoker f e)
  unfolding work
  work-IsFit show_duration policy now invoker f e v h =
      let (d', outcome, run, fit) = stage_runs now invoker f.driver e v h in
      let g : Flow = record f { driver = d' } in
      let ended = after_stage show_duration policy now e g outcome in
      (ended.0, ended.1, rw run refl, after_stage-IsFit show_duration policy now e g outcome fit)

  drain_rounds-IsFit :
      (moments : List Moment) (d : FlowDriver)
      → IsFit topology d
      → (d' : FlowDriver) × (drain_rounds topology moments d ≡ returns d') × IsFit topology d'
  unfolding drain_rounds
  drain_rounds-IsFit [] d v = (d, refl, v)
  drain_rounds-IsFit (m ∷ moments) d v =
      let (found, decided) = next_ready_stage-Returns d.streams topology d.stream_index v.wired in
      elim (Option-cases found) [
        | inl nothing ↦ (d, rw (decided, nothing) refl, v)
        | inr (e, picked) ↦
            let (d1, outcome, run1, v1) =
              stage_runs m.now m.invoker d e v (decided ∙ ap returns picked) in
            let (d2, run2, v2) = drain_rounds-IsFit moments d1 v1 in
            (d2, rw (decided, picked, run1) run2, v2)
      ]

  -- The drain does not panic, however long it has and whatever the components answer, and it leaves
  -- every queue empty.
  pub drain_queues-AreEmpty :
      (moments : List Moment) (d : FlowDriver)
      → IsFit topology d
      → (d' : FlowDriver) × (drain_queues topology moments d ≡ returns d') × AreEmpty d'.streams
  unfolding drain_queues
  drain_queues-AreEmpty moments d v =
      let (last, run1, w) = drain_rounds-IsFit moments d v in
      let (streams, run2, empty, _) = discard_all-AreEmpty 0 last.streams w.sound.steady in
      (record last { streams = streams }, rw (run1, run2) refl, empty)

  module _ (show_duration : ℕ → Text) (policy : ErrorPolicy) where
    round-IsFit :
        (m : Moment) (before : Flow)
        → IsFit topology before.driver
        → Fits (round show_duration topology policy m before)
    unfolding round proceed act
    round-IsFit m before v =
        let f : Flow = record before { cancellation = hear m.requested before.cancellation } in
        let (found, decided) =
          next_ready_stage-Returns f.driver.streams topology f.driver.stream_index v.wired in
        elim (Bool-cases f.cancellation.cancelled_flag) [
          | inl over ↦ (f, stop, rw over refl, v)
          | inr on ↦ elim (Option-cases found) [
            | inl nothing ↦ rw (on, decided, nothing) (idle-IsFit m.wait f v)
            | inr (e, picked) ↦
                rw (on, decided, picked)
                  (work-IsFit show_duration policy m.now m.invoker f e v
                    (decided ∙ ap returns picked))
          ]
        ]

    -- The main loop does not panic, whatever happens in its rounds, and keeps the streams' credits.
    pub run_rounds-IsFit :
        (moments : List Moment) (before : Flow)
        → IsFit topology before.driver
        → (f : Flow) × (verdict : Verdict) × (run_rounds show_duration topology policy moments
              before
            ≡ returns (f, verdict))
          × IsFit topology f.driver
    unfolding run_rounds
    run_rounds-IsFit [] before v = (before, go_on, refl, v)
    run_rounds-IsFit (m ∷ moments) before v =
        let (f, verdict, run, w) = round-IsFit m before v in
        elim (Verdict-cases verdict) [
          | inl stopped ↦ (f, stop, rw (run, stopped) refl, w)
          | inr going ↦
              let (g, verdict', run', w') = run_rounds-IsFit moments f w in
              (g, verdict', rw (run, going) run', w')
        ]
