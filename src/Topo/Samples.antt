-- ===== src/Topo/Samples.antt =====
-- `TopoSortJobs` on small workflows, and the theorems about it at them.
use mirror_gha.Base.{
  Bool-cases, All, In, Text, lit, text_eq, text_eq_iff, Map, lookup, keys, ◌≡◌, refl, sym, subst,
  ◌≢◌, inl, inr, Option, none, some, List, [], ◌∷◌, ok, err,
}
use mirror_gha.Workflow.{Job, Yaml, absent}
use mirror_gha.Topo.Defs.{circular, unknown_need, topo_sort_jobs}
use mirror_gha.Topo.Order.{IsOrdered, topo_sort_jobs-IsOrdered}
use mirror_gha.Topo.Errors.{
  Needs, DependsOn, direct, through, Explains, topo_sort_jobs-Explains, topo_sort_jobs_total,
}

abbrev pub job : List Text → Job (Unit {0})
job needs = record {
  name = [];
  runs_on = lit "ubuntu-latest";
  env = [];
  steps = [];
  needs = needs;
  strategy = none;
  outputs = [];
  timeout = 0;
  defaults = none;
  raw_container = tt;
  services = [];
  raw_environment = tt;
  raw_permissions = tt;
  raw_concurrency = tt;
}

-- `build` needs `test`, although it comes first by name.
abbrev pub two_jobs : Map (Job (Unit {0}))
two_jobs = (lit "build", job (lit "test" ∷ [])) ∷ (lit "test", job []) ∷ []

abbrev looped : Map (Job (Unit {0}))
looped = (lit "a", job (lit "b" ∷ [])) ∷ (lit "b", job (lit "a" ∷ [])) ∷ []

sorted : topo_sort_jobs two_jobs ≡ ok (lit "test" ∷ lit "build" ∷ [])
unfolding topo_sort_jobs lookup text_eq
sorted = refl

loop_found : topo_sort_jobs looped ≡ err (circular (lit "a"))
unfolding topo_sort_jobs lookup text_eq
loop_found = refl

need_unknown :
    topo_sort_jobs ((lit "a", job (lit "c" ∷ [])) ∷ []) ≡ err (unknown_need (lit "a") (lit "c"))
unfolding topo_sort_jobs lookup text_eq
need_unknown = refl

topo_sort_jobs-IsOrdered_example :
    IsOrdered two_jobs [] (lit "test" ∷ lit "build" ∷ [])
    × All (λ n. In n (lit "test" ∷ lit "build" ∷ [])) (keys two_jobs)
topo_sort_jobs-IsOrdered_example =
    topo_sort_jobs-IsOrdered two_jobs (lit "test" ∷ lit "build" ∷ []) sorted

topo_sort_jobs-Explains_example : Explains looped (circular (lit "a"))
topo_sort_jobs-Explains_example = topo_sort_jobs-Explains looped (circular (lit "a")) loop_found

needs_of : Option (Job (Unit {0})) → List Text
needs_of none = []
needs_of (some j) = j.needs

only_need :
    (name dep : Text)
    → In dep (needs_of (lookup name two_jobs))
    → (name ≡ lit "build") × (dep ≡ lit "test")
unfolding lookup needs_of
only_need name dep m = elim (Bool-cases (text_eq (lit "build") name)) [
  | inl e ↦
      let m' : In dep (lit "test" ∷ []) = rw (e, needs_of, lookup) at m in
      (sym ((text_eq_iff (lit "build") name).0 e), elim m' [ inl q ↦ sym q | inr b ↦ absurd b ])
  | inr e ↦ elim (Bool-cases (text_eq (lit "test") name)) [
    | inl t ↦ let m' : In dep [] = rw (e, t, needs_of, lookup) at m in absurd m'
    | inr t ↦ let m' : In dep [] = rw (e, t, needs_of, lookup) at m in absurd m'
  ]
]

only_Needs : (name dep : Text) → Needs two_jobs name dep → (name ≡ lit "build") × (dep ≡ lit "test")
unfolding needs_of
only_Needs name dep n = only_need name dep (subst (λ o. In dep (needs_of o)) (sym n.known) n.listed)

lookup_known : (name dep : Text) → Needs two_jobs name dep → lookup dep two_jobs ≢ none
unfolding lookup text_eq
lookup_known name dep n e =
    let at_test : lookup (lit "test") two_jobs ≡ none =
      subst (λ d. lookup d two_jobs ≡ none) (only_Needs name dep n).1 e in
    cc at_test

only_DependsOn :
    (name dep : Text) → DependsOn two_jobs name dep → (name ≡ lit "build") × (dep ≡ lit "test")
only_DependsOn name dep (direct n) = only_Needs name dep n
only_DependsOn name dep (through {mid = mid} d n) =
    ((only_DependsOn name mid d).0, (only_Needs mid dep n).1)

no_cycle : (name : Text) → ¬ DependsOn two_jobs name name
no_cycle name d = let (e, f) = only_DependsOn name name d in cc

topo_sort_jobs_total_example : (order : List Text) × (topo_sort_jobs two_jobs ≡ ok order)
topo_sort_jobs_total_example = topo_sort_jobs_total two_jobs lookup_known no_cycle

abbrev pub no_yaml : Yaml
no_yaml = record {
  Node = Unit {0};
  kind = λ n. absent;
  decode_text = λ n. err [];
  decode_texts = λ n. err [];
  decode_map = λ n. err [];
  decode_concurrency = λ n. err [];
  decode_environment = λ n. err [];
  decode_container = λ n. err [];
  unmarshal = λ t. err [];
}
