-- ===== src/Orchestrator/Queue/Ready.antt =====
-- `_dependencies_done` against what it is meant to decide.
use terramate_api_wrapper.Base.{
  String, true, Bool, ◌&&◌, ◌≡◌, ◌↔◌, refl, sym, subst, List, [], ◌∷◌, In, select, contains, all,
  In-map, In-map_of, In-select, In-select_of, contains-In, In-contains, all-In, all_of_In,
  string_eq, if◌then◌else◌, arith,
}
use terramate_api_wrapper.Models.{Step, Db}
use terramate_api_wrapper.Orchestrator.Status.{is_done}
use terramate_api_wrapper.Orchestrator.Queue.{done_ids, dependencies_done, same_set, is_empty}

-- Every dependency is the id of a stored Step that is done.
abbrev pub DependenciesDone : Db → Step → Type 0
DependenciesDone db step =
    (d : String)
    → In d step.depends_on
    → (x : Step) × In x db.steps × (x.id ≡ d) × (is_done x.status ≡ true)

covered :
    (ids deps : List String)
    → (if is_empty deps then true else same_set ids deps) ≡ true
    → all (contains ids) deps ≡ true
covered ids [] h = refl
covered ids (d ∷ ds) h = ground arith

covered_of :
    (ids deps : List String)
    → all (contains deps) ids ≡ true
    → all (contains ids) deps ≡ true
    → (if is_empty deps then true else same_set ids deps) ≡ true
covered_of ids [] h k = refl
covered_of ids (d ∷ ds) h k = ground arith

module _ (db : Db) (step : Step) where
  abbrev counts : Step → Bool
  counts s = contains step.depends_on s.id && is_done s.status

  In-done_ids :
      (d : String)
      → In d (done_ids db step)
      → (x : Step) × In x db.steps
        × (x.id ≡ d)
        × (is_done x.status ≡ true)
        × (contains step.depends_on d ≡ true)
  unfolding done_ids
  In-done_ids d m =
      let (x, i, e) = In-map (λ (s : Step). s.id) d (select counts db.steps) m in
      let (stored, c) = In-select counts x db.steps i in
      (x, stored, sym e, ground arith, ground arith)

  In-done_ids_of :
      (x : Step)
      → In x db.steps
      → is_done x.status ≡ true
      → In x.id step.depends_on
      → In x.id (done_ids db step)
  unfolding done_ids
  In-done_ids_of x i h m =
      In-map_of (λ (s : Step). s.id) x (select counts db.steps)
        (In-select_of counts x db.steps i (ground (arith, In-contains x.id step.depends_on m)))

  pub dependencies_done_sound : dependencies_done db step ≡ true → DependenciesDone db step
  unfolding dependencies_done
  dependencies_done_sound h d m =
      let (x, i, e, o, _) = In-done_ids d (
        contains-In d (done_ids db step) (
          all-In (contains (done_ids db step)) d step.depends_on
            (covered (done_ids db step) step.depends_on h) m)) in
      (x, i, e, o)

  pub dependencies_done_complete : DependenciesDone db step → dependencies_done db step ≡ true
  unfolding dependencies_done
  dependencies_done_complete h =
      covered_of (done_ids db step) step.depends_on
        (all_of_In (contains step.depends_on) (done_ids db step)
          (λ d m. let (x, i, e, o, c) = In-done_ids d m in c))
        (all_of_In (contains (done_ids db step)) step.depends_on (λ d m.
          let (x, i, e, o) = h d m in
          subst (λ k. contains (done_ids db step) k ≡ true) e
            (In-contains x.id (done_ids db step)
              (In-done_ids_of x i o (subst (λ k. In k step.depends_on) (sym e) m)))))

  -- `_dependencies_done` says yes exactly when every dependency is the id of a stored Step that is
  -- done.
  pub dependencies_done_iff : (dependencies_done db step ≡ true) ↔ DependenciesDone db step
  dependencies_done_iff = (dependencies_done_sound, dependencies_done_complete)
