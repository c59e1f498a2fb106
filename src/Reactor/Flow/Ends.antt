-- ===== src/Reactor/Flow/Ends.antt =====
-- The reason that the main loop of `run` in crates/torvyn-reactor/src/flow_driver.rs ends with.
use torvyn.Common.{
  ℕ, ◌≡◌, ◌≢◌, refl, sym, ap, subst, ◌∙◌, inl, inr, Bool, true, false, none, some, Option, List, [],
  ◌∷◌, arith, Text, if◌then◌else◌, returns, Run, Bool-cases, bind_returns, returns_inj,
}
use torvyn.Reactor.Topology.{FlowTopology}
use torvyn.Reactor.Scheduling.{StageExecution, next_ready_stage}
use torvyn.Reactor.Cancellation.{
  CancellationReason, source_complete, timed_out_after, cancel, cancellation_reason, FlowError,
  component_error,
}
use torvyn.Reactor.Driver.{Invoker, Outcome, errored, execute_stage}
use torvyn.Reactor.Upkeep.{all_streams_complete, propagate_producer_complete}
use torvyn.Reactor.Flow.Rounds.{Verdict-cases}
use torvyn.Reactor.Flow.{
  ErrorPolicy, fail_fast, Wait, woke, cancelled_while_waiting, deadline_passed, Moment, Flow,
  Verdict, go_on, stop, hear, end_with, after_stage, after_wait, idle, work, act, proceed, round,
  run_rounds,
}

-- Nobody has cancelled the flow.
abbrev pub Open : Flow → Type 0
Open f = (f.cancellation.cancelled_flag ≡ false) × (f.cancellation.reason ≡ none)

-- The flow is cancelled for a reason, and `source_complete` is it only where all streams are complete.
abbrev pub Ended : Flow → Type 0
Ended f =
    (reason : CancellationReason) × (f.cancellation.reason ≡ some reason)
    × (f.cancellation.cancelled_flag ≡ true)
    × (reason ≡ source_complete → all_streams_complete f.driver.streams ≡ true)

-- The verdict on a flow says whether it is cancelled.
unfoldable pub Agrees : Flow → Verdict → Type 0
Agrees f go_on = Open f
Agrees f stop = Ended f

-- No other holder of the token says that the source is complete.
unfoldable pub IsHonest : Moment → Type 0
IsHonest m =
    (m.requested ≢ some source_complete) × (m.wait ≢ cancelled_while_waiting source_complete)

unfoldable pub AreHonest : List Moment → Type 0
unfolding IsHonest
AreHonest [] = Unit {0}
AreHonest (m ∷ moments) = IsHonest m × AreHonest moments

end_with-Ended :
    (f : Flow) (reason : CancellationReason)
    → Open f
    → (reason ≡ source_complete → all_streams_complete f.driver.streams ≡ true)
    → Ended (end_with f reason).0
unfolding end_with cancel
end_with-Ended f reason (unset, no_reason) k = (reason, rw no_reason refl, refl, k)

cancellation_reason-ne :
    (show_duration : ℕ → Text) (e : FlowError) (executing : ℕ)
    → cancellation_reason show_duration e executing ≢ source_complete
unfolding cancellation_reason
cancellation_reason-ne show_duration (component_error component error) executing h =
    absurd (ground (arith, h))
cancellation_reason-ne show_duration e executing h = absurd (ground (arith, h))

after_stage-Agrees :
    (show_duration : ℕ → Text) (policy : ErrorPolicy) (now : ℕ) (e : StageExecution) (f : Flow)
    (outcome : Outcome)
    → Open f
    → let done = after_stage show_duration policy now e f outcome in Agrees done.0 done.1
unfolding after_stage Agrees
after_stage-Agrees show_duration fail_fast now e f (errored err) o =
    end_with-Ended f (cancellation_reason show_duration err e.component_id) o
      (λ same. absurd (cancellation_reason-ne show_duration err e.component_id same))
after_stage-Agrees show_duration policy now e f outcome o = o

after_wait-Agrees :
    (f : Flow) (wait : Wait)
    → Open f
    → wait ≢ cancelled_while_waiting source_complete
    → Agrees (after_wait f wait).0 (after_wait f wait).1
unfolding after_wait Agrees
after_wait-Agrees f woke o h = o
after_wait-Agrees f (cancelled_while_waiting reason) o h =
    end_with-Ended f reason o (λ same. absurd (h (ap cancelled_while_waiting same)))
after_wait-Agrees f (deadline_passed elapsed) o h =
    end_with-Ended f (timed_out_after elapsed) o (λ same. absurd (ground (arith, same)))

-- What a run of a loop that returned says.
abbrev Says : Run (Flow × Verdict) → Flow → Verdict → Type 0
Says r f verdict = r ≡ returns (f, verdict) → Agrees f verdict

agree :
    (done : Flow × Verdict) (f : Flow) (verdict : Verdict)
    → Agrees done.0 done.1
    → returns done ≡ returns (f, verdict)
    → Agrees f verdict
agree done f verdict a h =
    subst (λ (d : Flow × Verdict). Agrees d.0 d.1) (returns_inj done (f, verdict) h) a

choice-Agrees :
    (wait : Wait) (next : Flow) (complete : Bool)
    → Open next
    → wait ≢ cancelled_while_waiting source_complete
    → all_streams_complete next.driver.streams ≡ complete
    → let done = if complete then end_with next source_complete else after_wait next wait in
      Agrees done.0 done.1
unfolding Agrees end_with
choice-Agrees wait next true o honest h = end_with-Ended next source_complete o (λ same. h)
choice-Agrees wait next false o honest h = after_wait-Agrees next wait o honest

heard-Ended :
    (requested : Option CancellationReason) (before : Flow)
    → Open before
    → requested ≢ some source_complete
    → (hear requested before.cancellation).cancelled_flag ≡ true
    → Ended (record before { cancellation = hear requested before.cancellation })
unfolding hear end_with cancel
heard-Ended none before o asked h = absurd (ground (arith, h, o.0))
heard-Ended (some reason) before o asked h =
    end_with-Ended before reason o (λ same. absurd (asked (ap some same)))

heard-Open :
    (requested : Option CancellationReason) (before : Flow)
    → Open before
    → (hear requested before.cancellation).cancelled_flag ≡ false
    → Open (record before { cancellation = hear requested before.cancellation })
unfolding hear cancel
heard-Open none before o h = o
heard-Open (some reason) before o h = absurd (ground (arith, h))

module _ (show_duration : ℕ → Text) (topology : FlowTopology) (policy : ErrorPolicy) where
  idle-Agrees :
      (wait : Wait) (before f : Flow) (verdict : Verdict)
      → Open before
      → wait ≢ cancelled_while_waiting source_complete
      → Says (idle topology wait before) f verdict
  unfolding idle Agrees
  idle-Agrees wait before f verdict o honest h =
      let (streams, _, h1) =
        bind_returns
          (propagate_producer_complete topology before.driver.stream_index before.driver.streams) _
          _ h in
      let next : Flow = record before { driver = record before.driver { streams = streams } } in
      agree _ f verdict (choice-Agrees wait next (all_streams_complete streams) o honest refl) h1

  work-Agrees :
      (now : ℕ) (invoker : Invoker) (before : Flow) (e : StageExecution) (f : Flow)
      (verdict : Verdict)
      → Open before
      → Says (work show_duration policy now invoker before e) f verdict
  unfolding work
  work-Agrees now invoker before e f verdict o h =
      let (done, _, h1) = bind_returns (execute_stage now invoker before.driver e) _ _ h in
      agree _ f verdict
        (after_stage-Agrees show_duration policy now e (record before { driver = done.0 }) done.1 o)
        h1

  act-Agrees :
      (m : Moment) (before : Flow) (found : Option StageExecution) (f : Flow) (verdict : Verdict)
      → Open before
      → m.wait ≢ cancelled_while_waiting source_complete
      → Says (act show_duration topology policy m before found) f verdict
  unfolding act
  act-Agrees m before (some e) f verdict o waited h =
      work-Agrees m.now m.invoker before e f verdict o h
  act-Agrees m before none f verdict o waited h = idle-Agrees m.wait before f verdict o waited h

  proceed-Agrees :
      (m : Moment) (before f : Flow) (verdict : Verdict)
      → Open before
      → m.wait ≢ cancelled_while_waiting source_complete
      → Says (proceed show_duration topology policy m before) f verdict
  unfolding proceed
  proceed-Agrees m before f verdict o waited h =
      let (found, _, h1) =
        bind_returns (next_ready_stage topology before.driver.streams before.driver.stream_index) _
          _ h in
      act-Agrees m before found f verdict o waited h1

  round-Agrees :
      (m : Moment) (before f : Flow) (verdict : Verdict)
      → Open before
      → IsHonest m
      → Says (round show_duration topology policy m before) f verdict
  unfolding round IsHonest Agrees
  round-Agrees m before f verdict o (asked, waited) h =
      let f0 : Flow = record before { cancellation = hear m.requested before.cancellation } in
      elim (Bool-cases f0.cancellation.cancelled_flag) [
        | inl over ↦
            let run : round show_duration topology policy m before ≡ returns (f0, stop) =
              rw over refl in
            agree (f0, stop) f verdict (heard-Ended m.requested before o asked over) (sym run ∙ h)
        | inr on ↦
            let run : round show_duration topology policy m before
                ≡ proceed show_duration topology policy m f0 =
              rw on refl in
            proceed-Agrees m f0 f verdict (heard-Open m.requested before o on) waited (sym run ∙ h)
      ]

  -- Nobody else says that the source is complete: then the main loop ends a flow that nobody had
  -- cancelled only for a reason, and `source_complete` is the reason only where every stream is
  -- complete, its queue empty.
  pub run_rounds-Agrees :
      (moments : List Moment) (before f : Flow) (verdict : Verdict)
      → Open before
      → AreHonest moments
      → run_rounds show_duration topology policy moments before ≡ returns (f, verdict)
      → Agrees f verdict
  unfolding run_rounds AreHonest Agrees
  run_rounds-Agrees [] before f verdict o honest h = agree (before, go_on) f verdict o h
  run_rounds-Agrees (m ∷ moments) before f verdict o (here, there) h =
      let (done, run, h1) = bind_returns (round show_duration topology policy m before) _ _ h in
      let a = round-Agrees m before done.0 done.1 o here run in
      elim (Verdict-cases done.1) [
        | inl stopped ↦
            agree (done.0, stop) f verdict (subst (Agrees done.0) stopped a)
              (ground (arith, h1, stopped))
        | inr going ↦
            run_rounds-Agrees moments done.0 f verdict (subst (Agrees done.0) going a) there
              (ground (arith, h1, going))
      ]
