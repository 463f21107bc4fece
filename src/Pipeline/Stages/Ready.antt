-- ===== src/Pipeline/Stages/Ready.antt =====
-- What the scheduler returns: exactly the stages of the family that are new and whose dependencies
-- are finished.
use ragent.Common.{
  String, ◌≡◌, ◌↔◌, refl, sym, ◌∙◌, subst, inter, inter-subset, subset→Subset, contains-filter,
  true, false, List, ◌++◌, arith, filter, mem-filter_of_mem, mem_of_mem-filter, contains, subset,
  contains-append,
}
use mathlib.Core.List.{Memᴰ}
use ragent.Ingest.Formats.{FormatFamily}
use ragent.Pipeline.Stages.Lookup.{contains_of_mem, mem_of_contains}
use ragent.Pipeline.Stages.{
  names, stage_names_for, Stage, applies_to, stages_for, effective_deps, is_ready, ready_stages,
}

module _ (pipeline : List Stage) (family : FormatFamily) (completed dispatched : List String) where
  -- A stage that may start: it is on the family's path, has not finished, is not in flight, and
  -- of the pipeline's stages every one on that path that it depends on has finished. A dependency
  -- that is not on the path holds nothing up.
  pub record MayStart (s : Stage) : Type 0 where
    pub runs : applies_to family s ≡ true
    pub unfinished : contains completed s.name ≡ false
    pub idle : contains dispatched s.name ≡ false
    pub deps_done :
        (t : Stage)
        → Memᴰ t pipeline
        → applies_to family t ≡ true
        → contains s.depends_on t.name ≡ true
        → contains completed t.name ≡ true

  deps_of_subset :
      (s t : Stage)
      → subset (effective_deps pipeline s family) completed ≡ true
      → Memᴰ t pipeline
      → applies_to family t ≡ true
      → contains s.depends_on t.name ≡ true
      → contains completed t.name ≡ true
  unfolding effective_deps stage_names_for stages_for
  deps_of_subset s t done listed runs depends =
      let path = filter (applies_to family) pipeline in
      let on_path =
        contains_of_mem path (mem-filter_of_mem (applies_to family) pipeline listed runs) in
      subset→Subset (inter s.depends_on (names path)) completed done t.name
        (contains-filter (contains (names path)) s.depends_on t.name ∙ rw (depends, on_path) refl)

  subset_of_deps :
      (s : Stage) → MayStart s → subset (effective_deps pipeline s family) completed ≡ true
  unfolding effective_deps stage_names_for stages_for
  subset_of_deps s may =
      let path = filter (applies_to family) pipeline in
      inter-subset s.depends_on (names path) completed λ d depends on_path.
        let (t, m, named) = mem_of_contains path d on_path in
        let (listed, runs) = mem_of_mem-filter (applies_to family) pipeline t m in
        subst (λ n. contains completed n ≡ true) named
          (may.deps_done t listed runs
            (subst (λ n. contains s.depends_on n ≡ true) (sym named) depends))

  is_ready-MayStart :
      (s : Stage)
      → applies_to family s ≡ true
      → is_ready pipeline family completed (completed ++ dispatched) s ≡ true
      → MayStart s
  unfolding is_ready
  is_ready-MayStart s runs h =
      let here = contains-append completed dispatched s.name in
      let done : subset (effective_deps pipeline s family) completed ≡ true = ground arith in
      record {
        runs = runs;
        unfinished = ground (arith, here);
        idle = ground (arith, here);
        deps_done = λ t. deps_of_subset s t done;
      }

  is_ready_of_MayStart :
      (s : Stage)
      → MayStart s
      → is_ready pipeline family completed (completed ++ dispatched) s ≡ true
  unfolding is_ready
  is_ready_of_MayStart s may = ground (
    arith,
    contains-append completed dispatched s.name,
    may.unfinished,
    may.idle,
    subset_of_deps s may,
  )

  -- The scheduler returns exactly the stages of the pipeline that may start: those of the family
  -- that have neither finished nor been dispatched and for which every stage of the pipeline on the
  -- family's path that they depend on has finished. A dependency that is not on the path does not
  -- hold a stage up.
  pub mem-ready_stages_iff :
      (s : Stage)
      → Memᴰ s (ready_stages pipeline family completed dispatched) ↔ (Memᴰ s pipeline × MayStart s)
  unfolding ready_stages stages_for
  mem-ready_stages_iff s = (
    λ m.
        let (on_path, ready) =
          mem_of_mem-filter (is_ready pipeline family completed (completed ++ dispatched))
            (filter (applies_to family) pipeline) s m in
        let (listed, runs) = mem_of_mem-filter (applies_to family) pipeline s on_path in
        (listed, is_ready-MayStart s runs ready),
    λ (listed, may).
        mem-filter_of_mem (is_ready pipeline family completed (completed ++ dispatched))
          (filter (applies_to family) pipeline)
          (mem-filter_of_mem (applies_to family) pipeline listed may.runs)
          (is_ready_of_MayStart s may),
  )
