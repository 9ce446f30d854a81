-- ===== src/Core/Down/Reach.antt =====
-- A pipeline that is down, in every engine that the turns, the dispatches, the methods and the
-- scanners reach.
use laredo.Common.{
  ℕ, String, Bool, true, false, ◌≡◌, ◌≢◌, refl, subst, arith, Option, some, List, get_elem?,
}
use laredo.Types.{Row}
use laredo.DeadLetter.{ChangeEvent}
use laredo.Pipeline.{Pipeline, SyncTarget, pipeline_streaming, pipeline_error}
use laredo.Engine.Buffer.{returns}
use laredo.Core.{CoreEngine, is_down}
use laredo.Core.Consumer.{
  PipelineItem, Turn, Buffers, consume, dispatch_to_buffers, dispatch_heartbeat,
}
use laredo.Core.Baseline.{BaselineRow, run_baseline, try_snapshot_restore}
use laredo.Core.Lifecycle.{start, pause, resume, reload}
use laredo.Core.Scanner.{scan, validate, fails_validation}
use laredo.Core.Frame.{Holds, on_pipeline-Holds, up_elsewhere, at-Holds, if-Holds, transition-Holds}
use laredo.Core.Down.{
  Kept, same_state-up, consume-Holds, dispatch_to_buffers-Kept, dispatch_heartbeat-Kept,
}
use laredo.Core.Down.Baseline.{run_baseline-Holds, try_snapshot_restore-Holds}
use laredo.Core.Down.Methods.{pause-Holds, resume-Holds, reload-Holds}

module _ {T P : Type 0} (s : SyncTarget T P) where
  -- One step of a running engine: a turn of a consumer, a dispatch that returns, a baseline, a
  -- restore, a tick of a scanner, or a method other than `Stop`. The scanner of expired rows deletes
  -- rows whatever the state of its pipeline, so the one of the given pipeline takes no step.
  pub data Step (i : ℕ) (c : CoreEngine T P) : CoreEngine T P → Type 0 where
    starts : Step i c (start c).0
    turns :
        (turn : Turn) (n : ℕ) (idxs : List ℕ) (source_id : String) (item : PipelineItem P)
        → Step i c (consume s c turn n idxs source_id item).0
    dispatches :
        (done first : Bool) (drained : ℕ → ℕ) (buffers after : Buffers s) (source_id : String)
        (idxs rest : List ℕ) (event : ChangeEvent P) (failed : Bool) (d : CoreEngine T P)
        → dispatch_to_buffers s done first drained c buffers source_id idxs rest event
          ≡ returns (d, after, failed)
        → Step i c d
    beats :
        (done first : Bool) (drained : ℕ → ℕ) (buffers after : Buffers s) (rest : List ℕ)
        (position : P) (failed : Bool) (d : CoreEngine T P)
        → dispatch_heartbeat s done first drained c buffers rest position
          ≡ returns (d, after, failed)
        → Step i c d
    baselines :
        (source_id : String) (idxs : List ℕ) (rows : List BaselineRow) (done taken : Bool)
        (position : Option P)
        → Step i c (run_baseline s c source_id idxs rows done taken position).0
    restores :
        (idxs : List ℕ) (snapshot : Option (Option P × (String → List Row)))
        → Step i c (try_snapshot_restore s c idxs snapshot).0
    validates : (n : ℕ) → Step i c (validate s c n)
    scans :
        (n listed deleted : ℕ) (rows : List (ℕ × Row))
        → n ≢ i
        → Step i c (scan s c n listed rows deleted)
    pauses : (source_id : String) (paused : Bool) → Step i c (pause c source_id paused).0
    resumes : (source_id : String) (resumed : Bool) → Step i c (resume c source_id resumed).0
    reloads :
        (source_id table : String) (paused : Bool) (rows : List BaselineRow) (position : Option P)
        (resumed : Bool)
        → Step i c (reload s c source_id table paused rows position resumed).0

  pub data Reach (i : ℕ) (c : CoreEngine T P) : CoreEngine T P → Type 0 where
    here : Reach i c c
    next : {d e : CoreEngine T P} → Reach i c d → Step i d e → Reach i c e

  module _ (i : ℕ) (p : Pipeline T) (down : is_down p.state ≡ true) where
    start-Holds : (c : CoreEngine T P) → Holds i p down c → Holds i p down (start c).0
    unfolding start
    start-Holds c h = ground arith

    fails_validation-up : (q : Pipeline T) → fails_validation s q ≡ true → is_down q.state ≡ false
    unfolding fails_validation is_down
    fails_validation-up q y =
        same_state-up s i p down q.state pipeline_streaming refl (ground (arith, y))

    validate-Holds :
        (c : CoreEngine T P) (n : ℕ) → Holds i p down c → Holds i p down (validate s c n)
    unfolding validate
    validate-Holds c n h = at-Holds i p down c n _ h (λ q e.
        if-Holds i p down (fails_validation s q) _ c
          (λ y.
            transition-Holds i p down c n pipeline_error h
              (up_elsewhere i p down c n q h e (fails_validation-up q y)))
          (λ y. h))

    scan-Holds :
        (c : CoreEngine T P) (n listed deleted : ℕ) (rows : List (ℕ × Row))
        → Holds i p down c
        → n ≢ i
        → Holds i p down (scan s c n listed rows deleted)
    unfolding scan
    scan-Holds c n listed deleted rows h other =
        on_pipeline-Holds i p down c n _ h (λ same. absurd (other same))

    Step-Holds : {c d : CoreEngine T P} → Step i c d → Holds i p down c → Holds i p down d
    Step-Holds {c} starts h = start-Holds c h
    Step-Holds {c} (turns turn n idxs source_id item) h =
        consume-Holds s i p down c turn n idxs source_id item h
    Step-Holds {c}
          (dispatches done first drained buffers after source_id idxs rest event failed d e) h =
        subst (Kept s i p down) e (
          dispatch_to_buffers-Kept s i p down done first drained c buffers source_id idxs rest event
            h)
    Step-Holds {c} (beats done first drained buffers after rest position failed d e) h =
        subst (Kept s i p down) e
          (dispatch_heartbeat-Kept s i p down done first drained c buffers rest position h)
    Step-Holds {c} (baselines source_id idxs rows done taken position) h =
        run_baseline-Holds s i p down c source_id idxs rows done taken position h
    Step-Holds {c} (restores idxs snapshot) h =
        try_snapshot_restore-Holds s i p down idxs c snapshot h
    Step-Holds {c} (validates n) h = validate-Holds c n h
    Step-Holds {c} (scans n listed deleted rows other) h =
        scan-Holds c n listed deleted rows h other
    Step-Holds {c} (pauses source_id paused) h = pause-Holds s i p down c source_id paused h
    Step-Holds {c} (resumes source_id resumed) h = resume-Holds s i p down c source_id resumed h
    Step-Holds {c} (reloads source_id table paused rows position resumed) h =
        reload-Holds s i p down c source_id table paused rows position resumed h

  pub Reach-down :
      (i : ℕ) (p : Pipeline T) {c d : CoreEngine T P}
      → is_down p.state ≡ true
      → get_elem? c.pipelines i ≡ some p
      → Reach i c d
      → get_elem? d.pipelines i ≡ some p
  Reach-down i p down h here = h
  Reach-down i p down h (next r st) = Step-Holds i p down st (Reach-down i p down h r)
