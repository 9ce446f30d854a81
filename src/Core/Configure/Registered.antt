-- ===== src/Core/Configure/Registered.antt =====
-- What `NewEngine` makes of a configuration without errors.
use laredo.Common.{
  ℕ, ◌+◌, String, true, false, ◌≡◌, refl, sym, subst, ap, ◌∙◌, Option, none, some, List, [], ◌∷◌,
  ◌++◌, arith, Bool-cases, Option-cases, inl, inr, Assoc, get, get-put, ◌==◌, ==_refl,
  comparable_string, All,
}
use laredo.Pipeline.{Pipeline, pipeline_initializing}
use laredo.Engine.Ack.{Compare, AckTracker, register_pipeline}
use laredo.Core.{CoreEngine}
use laredo.Core.Configure.{
  PipelineConfig, EngineConfig, ConfigError, EngineOption, apply_options, empty_config,
}
use laredo.Core.Configure.Validate.{
  has_id, generate_pipeline_id, resolve, validate_sources, validate_pipeline, validate_pipelines,
  validate_config, register_each, build, new_engine,
}

append-none : (xs ys : List ConfigError) → xs ++ ys ≡ [] → (xs ≡ []) × (ys ≡ [])
append-none [] ys e = (refl, e)
append-none (x ∷ xs) ys e = cc

module _ {T : Type 0} where
  -- The IDs are not among those seen, and each is new.
  abbrev NewIds : List String → List (Pipeline T) → Type 0
  NewIds seen [] = Unit {0}
  NewIds seen (p ∷ ps) = (has_id seen p.id ≡ false) × NewIds (p.id ∷ seen) ps

  -- No two pipelines have one ID.
  abbrev pub DistinctIds : List (Pipeline T) → Type 0
  DistinctIds [] = Unit {0}
  DistinctIds (p ∷ ps) = All (λ q. (p.id == q.id) ≡ false) ps × DistinctIds ps

  others-new :
      (seen : List String) (id : String) (ps : List (Pipeline T))
      → has_id seen id ≡ true
      → NewIds seen ps
      → All (λ p. (id == p.id) ≡ false) ps
  unfolding has_id
  others-new seen id [] found new = tt
  others-new seen id (p ∷ ps) found new = (
    (elim (Bool-cases (id == p.id)) [
      | inr n ↦ n
      | inl y ↦
          absurd
            (ground (arith, ap (has_id seen) ((comparable_string.same_iff id p.id).0 y), new.0))
    ]),
    others-new (p.id ∷ seen) id ps (ground (arith, found)) new.1,
  )

  distinct : (seen : List String) (ps : List (Pipeline T)) → NewIds seen ps → DistinctIds ps
  unfolding has_id
  distinct seen [] new = tt
  distinct seen (p ∷ ps) new = (
    others-new (p.id ∷ seen) p.id ps (rw (has_id, ==_refl p.id) refl) new.1,
    distinct (p.id ∷ seen) ps new.1,
  )

module _ {T : Type 0} (target_type_name : T → String) where
  initializing :
      (pcs : List (PipelineConfig T))
      → All (λ p. p.state ≡ pipeline_initializing) (resolve target_type_name pcs)
  unfolding resolve
  initializing [] = tt
  initializing (pc ∷ pcs) = elim (Option-cases pc.target) [
    | inl e ↦ rw (resolve, e) (initializing pcs)
    | inr (t, e) ↦ rw (resolve, e) (refl, initializing pcs)
  ]

module _ {T P : Type 0} (target_type_name : T → String) where
  -- each source that is there is not nil
  sources_there :
      (m : Assoc String (Option (Compare P))) (id : String) (s : Option (Compare P))
      → validate_sources target_type_name m ≡ []
      → get m id ≡ some s
      → (compare : Compare P) × (s ≡ some compare)
  unfolding validate_sources
  sources_there [] id s none_wrong e = cc
  sources_there ((j, none) ∷ m) id s none_wrong e = absurd (ground arith)
  sources_there ((j, some compare) ∷ m) id s none_wrong e = elim (Bool-cases (j == id)) [
    | inl y ↦ (compare, ground arith)
    | inr n ↦ sources_there m id s (append-none _ _ none_wrong).1 (ground arith)
  ]

  -- the source of a pipeline without errors
  source_known :
      (m : Assoc String (Option (Compare P))) (i : ℕ) (pc : PipelineConfig T)
      → validate_pipeline target_type_name m i pc ≡ []
      → (s : Option (Compare P)) × (get m pc.source_id ≡ some s)
  unfolding validate_pipeline
  source_known m i pc none_wrong = elim (Option-cases (get m pc.source_id)) [
    | inr (s, e) ↦ (s, e)
    | inl e ↦ absurd (ground (arith, e))
  ]

  -- the source of each is known
  abbrev Known : Assoc String (Option (Compare P)) → List (Pipeline T) → Type 0
  Known m = All (λ p. (s : Option (Compare P)) × (get m p.source_id ≡ some s))

  resolved :
      (m : Assoc String (Option (Compare P))) (i : ℕ) (seen : List String)
      (pcs : List (PipelineConfig T))
      → validate_pipelines target_type_name m i seen pcs ≡ []
      → NewIds seen (resolve target_type_name pcs) × Known m (resolve target_type_name pcs)
  unfolding validate_pipelines resolve
  resolved m i seen [] none_wrong = (tt, tt)
  resolved m i seen (pc ∷ pcs) none_wrong = elim (Option-cases pc.target) [
    | inl e ↦
        let parts = append-none _ _ (rw (validate_pipelines, e) at none_wrong) in
        rw (resolve, e) (resolved m (i + 1) seen pcs parts.1)
    | inr (t, e) ↦
        let id : String = generate_pipeline_id target_type_name pc.source_id pc.table t in
        let parts = append-none _ _ (rw (validate_pipelines, e) at none_wrong) in
        let checks = append-none _ _ parts.1 in
        let (ids, known) = resolved m (i + 1) (id ∷ seen) pcs checks.1 in
        let fresh : has_id seen id ≡ false = ground (arith, checks.0) in
        rw (resolve, e) ((fresh, ids), (source_known m i pc parts.0, known))
  ]

  -- what registering leaves of a pipeline with another ID
  register_each-kept :
      (m : Assoc String (Option (Compare P))) (ps : List (Pipeline T)) (a : AckTracker P)
      (id : String)
      → All (λ p. (id == p.id) ≡ false) ps
      → get (register_each target_type_name m a ps).pipeline_source id ≡ get a.pipeline_source id
  unfolding register_each register_pipeline
  register_each-kept m [] a id others = refl
  register_each-kept m (p ∷ ps) a id others = elim (Option-cases (get m p.source_id)) [
    | inl e ↦ rw (register_each, e) (register_each-kept m ps a id others.1)
    | inr (none, e) ↦ rw (register_each, e) (register_each-kept m ps a id others.1)
    | inr (some compare, e) ↦
        rw (register_each, e)
          (register_each-kept m ps (register_pipeline a p.id p.source_id compare) id others.1
            ∙ get-put a.pipeline_source p.id id p.source_id
            ∙ ground (
              arith,
              others.0,
              comparable_string.same_iff p.id id,
              comparable_string.same_iff id p.id,
            ))
  ]

  -- Each pipeline is registered under its own source.
  abbrev pub Registered : AckTracker P → List (Pipeline T) → Type 0
  Registered a = All (λ p. get a.pipeline_source p.id ≡ some p.source_id)

  register_each-Registered :
      (m : Assoc String (Option (Compare P))) (ps : List (Pipeline T)) (a : AckTracker P)
      (seen : List String)
      → validate_sources target_type_name m ≡ []
      → Known m ps
      → NewIds seen ps
      → Registered (register_each target_type_name m a ps) ps
  unfolding register_each register_pipeline has_id
  register_each-Registered m [] a seen valid known new = tt
  register_each-Registered m (p ∷ ps) a seen valid known new =
      let (s, at) = known.0 in
      let (compare, there) = sources_there m p.source_id s valid at in
      let e : get m p.source_id ≡ some (some compare) = at ∙ ap some there in
      let b : AckTracker P = register_pipeline a p.id p.source_id compare in
      let first : register_each target_type_name m a (p ∷ ps)
          ≡ register_each target_type_name m b ps =
        rw (register_each, e) refl in
      subst (λ r. Registered r (p ∷ ps)) (sym first)
        (
          register_each-kept m ps b p.id
                (others-new (p.id ∷ seen) p.id ps (rw (has_id, ==_refl p.id) refl) new.1)
              ∙ get-put a.pipeline_source p.id p.id p.source_id
              ∙ rw (==_refl p.id) refl,
          register_each-Registered m ps b (p.id ∷ seen) valid known.1 new.1,
        )

  -- What holds of the engine, and what is reported with it.
  abbrev Sound : CoreEngine T P → List ConfigError → Type 0
  Sound c es =
      (es ≡ [])
      × DistinctIds c.pipelines
      × Registered c.ack_tracker c.pipelines
      × All (λ p. p.state ≡ pipeline_initializing) c.pipelines

  build-Sound :
      (cfg : EngineConfig T P)
      → validate_config target_type_name cfg ≡ []
      → Sound (build target_type_name cfg) []
  unfolding validate_config build
  build-Sound cfg right =
      let after_sources = append-none _ _ (append-none _ _ right).1 in
      let after_pipelines = append-none _ _ (append-none _ _ after_sources.1).1 in
      let (ids, known) = resolved cfg.sources 0 [] cfg.pipelines after_pipelines.0 in
      (
        refl,
        distinct [] (resolve target_type_name cfg.pipelines) ids,
        register_each-Registered cfg.sources (resolve target_type_name cfg.pipelines) _ []
            after_sources.0 known ids,
        initializing target_type_name cfg.pipelines,
      )

  -- Where `NewEngine` returns an engine, from any options, it reports no error; no two of the
  -- engine's pipelines have one ID; the tracker knows each of them under its own source; and each of
  -- them still has to initialize.
  pub new_engine-registers :
      (options : List (EngineOption T P)) (c : CoreEngine T P)
      → (new_engine target_type_name options).0 ≡ some c
      → ((new_engine target_type_name options).1 ≡ [])
        × DistinctIds c.pipelines
        × Registered c.ack_tracker c.pipelines
        × All (λ p. p.state ≡ pipeline_initializing) c.pipelines
  unfolding new_engine
  new_engine-registers options c made = go (validate_config target_type_name cfg) refl
    where
      cfg : EngineConfig T P
      cfg = apply_options options empty_config

      go :
          (es : List ConfigError)
          → validate_config target_type_name cfg ≡ es
          → Sound c (new_engine target_type_name options).1
      go (e ∷ es) wrong = absurd (ground (arith, made, wrong))
      go [] right =
          let it : build target_type_name cfg ≡ c = ground (arith, made, right) in
          rw (new_engine, right) (subst (λ d. Sound d []) it (build-Sound cfg right))
