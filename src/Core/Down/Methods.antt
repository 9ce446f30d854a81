-- ===== src/Core/Down/Methods.antt =====
-- A pipeline that is down, through pausing, resuming and a reload.
use laredo.Common.{
  ℕ, zero, suc, ◌+◌, ◌<◌, String, Bool, true, false, ◌≡◌, ◌≢◌, refl, Option, none, some, List, [],
  ◌∷◌, arith, if◌then◌else◌, Option-cases, inl, inr, get_elem?, positions_from, comparable_string,
  All,
}
use laredo.Pipeline.{
  Pipeline, PipelineState, SyncTarget, pipeline_baselining, pipeline_streaming, pipeline_paused,
  pipeline_error,
}
use laredo.Core.{CoreEngine, same_state, is_down, in_state, transition_pipeline}
use laredo.Core.Baseline.{BaselineRow, reset_each, dispatch_rows}
use laredo.Core.Lifecycle.{
  EngineError, no_active_pipelines, source_failed, guarded, is_active, affected, move_each, pause,
  resume, transition_each, stream_again, truncate_each, reloaded, reload,
}
use laredo.Core.Frame.{
  Holds, on_pipeline-Holds, at-Holds, if-Holds, transition-Holds, is_down-same_state,
}
use laredo.Core.Down.Baseline.{
  call_target-Holds, reset_each-Holds, dispatch_rows-Holds, complete_each-Holds,
}

module _ {T P : Type 0} (s : SyncTarget T P) (i : ℕ) (p : Pipeline T)
    (down : is_down p.state ≡ true) where
  -- the positions are all other ones
  abbrev Others : List ℕ → Type 0
  Others = All (λ n. n ≢ i)

  move_each-Holds :
      (idxs : List ℕ) (c : CoreEngine T P) (source_id : String) (chosen : Pipeline T → Bool)
      (change : Pipeline T → Pipeline T)
      → chosen p ≡ false
      → Holds i p down c
      → Holds i p down (move_each c idxs source_id chosen change)
  unfolding move_each
  move_each-Holds [] c source_id chosen change off h = h
  move_each-Holds (n ∷ idxs) c source_id chosen change off h =
      move_each-Holds idxs _ source_id chosen change off
        (on_pipeline-Holds i p down c n _ h (λ same. ground arith))

  pub pause-Holds :
      (c : CoreEngine T P) (source_id : String) (paused : Bool)
      → Holds i p down c
      → Holds i p down (pause c source_id paused).0
  unfolding pause is_down
  pause-Holds c source_id paused h = elim (Option-cases (guarded c source_id)) [
    | inr (err, e) ↦ rw (pause, e) h
    | inl e ↦ go e paused
  ]
    where
      go : guarded c source_id ≡ none → (b : Bool) → Holds i p down (pause c source_id b).0
      go e true =
          rw (pause, e)
            (move_each-Holds (positions_from 0 c.pipelines) c source_id _ _
              (is_down-same_state p.state pipeline_streaming down refl) h)
      go e false = rw (pause, e) h

  pub resume-Holds :
      (c : CoreEngine T P) (source_id : String) (resumed : Bool)
      → Holds i p down c
      → Holds i p down (resume c source_id resumed).0
  unfolding resume is_down
  resume-Holds c source_id resumed h = elim (Option-cases (guarded c source_id)) [
    | inr (err, e) ↦ rw (resume, e) h
    | inl e ↦ go e resumed
  ]
    where
      go : guarded c source_id ≡ none → (b : Bool) → Holds i p down (resume c source_id b).0
      go e true =
          rw (resume, e)
            (move_each-Holds (positions_from 0 c.pipelines) c source_id _ _
              (is_down-same_state p.state pipeline_paused down refl) h)
      go e false = rw (resume, e) h

  inactive : is_active p ≡ false
  unfolding is_active is_down
  inactive =
      let streams : same_state p.state pipeline_streaming ≡ false =
        is_down-same_state p.state pipeline_streaming down refl in
      let pauses : same_state p.state pipeline_paused ≡ false =
        is_down-same_state p.state pipeline_paused down refl in
      ground arith

  transition_each-Holds :
      (idxs : List ℕ) (c : CoreEngine T P) (st : PipelineState)
      → Others idxs
      → Holds i p down c
      → Holds i p down (transition_each c idxs st)
  unfolding transition_each
  transition_each-Holds [] c st o h = h
  transition_each-Holds (n ∷ idxs) c st o h =
      transition_each-Holds idxs _ st o.1 (transition-Holds i p down c n st h o.0)

  truncate_each-Holds :
      (idxs : List ℕ) (c : CoreEngine T P)
      → Others idxs
      → Holds i p down c
      → Holds i p down (truncate_each s c idxs)
  unfolding truncate_each
  truncate_each-Holds [] c o h = h
  truncate_each-Holds (n ∷ idxs) c o h =
      truncate_each-Holds idxs _ o.1
        (at-Holds i p down c n _ h (λ q e. call_target-Holds s i p down c n q _ h o.0))

  stream_again-Holds :
      (idxs : List ℕ) (c : CoreEngine T P)
      → Others idxs
      → Holds i p down c
      → Holds i p down (stream_again c idxs)
  unfolding stream_again
  stream_again-Holds [] c o h = h
  stream_again-Holds (n ∷ idxs) c o h = stream_again-Holds idxs _ o.1 (
      if-Holds i p down (in_state c n (same_state pipeline_baselining))
        (transition_pipeline c n pipeline_streaming) c
        (λ y. transition-Holds i p down c n pipeline_streaming h o.0) (λ y. h))

  reloaded-Holds :
      (c : CoreEngine T P) (idxs : List ℕ) (rows : List BaselineRow) (position : Option P)
      (resumed : Bool)
      → Others idxs
      → Holds i p down c
      → Holds i p down (reloaded s c idxs rows position resumed).0
  unfolding reloaded
  reloaded-Holds c idxs rows position resumed o h = go position
    where
      dispatched : Holds i p down (
          dispatch_rows s
            (reset_each s (truncate_each s (transition_each c idxs pipeline_baselining) idxs) idxs)
            idxs
            rows)
      dispatched = dispatch_rows-Holds s i p down rows idxs _ (
          reset_each-Holds s i p down idxs _
            (truncate_each-Holds idxs _ o (transition_each-Holds idxs c pipeline_baselining o h)))

      go : (at : Option P) → Holds i p down (reloaded s c idxs rows at resumed).0
      go none = transition_each-Holds idxs _ pipeline_error o dispatched
      go (some at) =
          stream_again-Holds idxs _ o (complete_each-Holds s i p down idxs _ at dispatched)

  -- a position more, where a test passes
  pick-Others :
      (b : Bool) (n : ℕ) (idxs : List ℕ)
      → (b ≡ true → n ≢ i)
      → Others idxs
      → Others (if b then n ∷ idxs else idxs)
  pick-Others true n idxs h o = (h refl, o)
  pick-Others false n idxs h o = o

  -- beyond the pipeline's own position
  later-Others :
      (n : ℕ) (ps : List (Pipeline T)) (source_id table : String)
      → i < n
      → Others (affected n ps source_id table)
  unfolding affected
  later-Others n [] source_id table h = tt
  later-Others n (q ∷ ps) source_id table h =
      pick-Others _ n _ (λ y. omega arith) (later-Others (n + 1) ps source_id table (omega arith))

  -- the positions that a reload takes, counted from any number on
  affected-Others :
      (n k : ℕ) (ps : List (Pipeline T)) (source_id table : String)
      → n + k ≡ i
      → get_elem? ps k ≡ some p
      → Others (affected n ps source_id table)
  unfolding affected
  affected-Others n k [] source_id table e h = tt
  affected-Others n zero (q ∷ ps) source_id table e h =
      let same : q ≡ p = ground (arith, h) in
      let off : is_active q ≡ false = rw same inactive in
      pick-Others _ n _ (λ y. absurd (ground arith))
        (later-Others (n + 1) ps source_id table (omega arith))
  affected-Others n (suc k) (q ∷ ps) source_id table e h =
      pick-Others _ n _ (λ y. omega arith)
        (affected-Others (n + 1) k ps source_id table (omega arith) h)

  pub reload-Holds :
      (c : CoreEngine T P) (source_id table : String) (paused : Bool) (rows : List BaselineRow)
      (position : Option P) (resumed : Bool)
      → Holds i p down c
      → Holds i p down (reload s c source_id table paused rows position resumed).0
  unfolding reload
  reload-Holds c source_id table paused rows position resumed h =
      elim (Option-cases (guarded c source_id)) [
        | inr (err, e) ↦ rw (reload, e) h
        | inl e ↦
            rw (reload, e)
              (go (affected 0 c.pipelines source_id table)
                (affected-Others 0 i c.pipelines source_id table (omega arith) h) paused)
      ]
    where
      go :
          (idxs : List ℕ)
          → Others idxs
          → (b : Bool)
          → Holds i p down
              (elim idxs as (λ l. CoreEngine T P × Option EngineError) [
                | [] ↦ (c, some no_active_pipelines)
                | idx ∷ idxs ↦
                    if b
                    then reloaded s c (idx ∷ idxs) rows position resumed
                    else (c, some source_failed)
              ]).0
      go [] o b = h
      go (n ∷ idxs) o true = reloaded-Holds c (n ∷ idxs) rows position resumed o h
      go (n ∷ idxs) o false = h
