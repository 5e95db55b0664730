-- ===== src/Environments/Plan/Steps.antt =====
-- The order of environments that `planOf` of environments/plan.go takes from the pipelines' steps.
use mathlib.Core.Path.{subst}
use glidepath.Prelude.{
  ℕ, ◌≤◌, ◌<◌, ◌≡◌, ◌≢◌, refl, sym, String, Bool, true, false, ◌||◌, not, List, [], ◌∷◌, Option,
  some, none, ◌==◌, eq_iff, ltb, length, Bool-cases, inl, inr, ◌⊎◌, arith, keep,
}
use glidepath.Prelude.Sort.{any}
use glidepath.Environments.Yaml.{
  Node, Nodes, Entries, mapping, sequence, end, next, done, entry, map_get, text_of,
}
use glidepath.Environments.Plan.{is_env_step, steps_in, steps_of, env_steps, best_in, best_of, once}

-- The items of a list, none if there is no list.
abbrev pub listed : Option Node → Nodes
listed (some (sequence ns)) = ns
listed n = end

-- The pipelines of a document, none if it has no mapping of them.
abbrev pub pipelines_of : Option Node → Entries
pipelines_of (some (mapping ps)) = ps
pipelines_of n = done

abbrev pub IsDeploying : String → Type 0
IsDeploying stage = (stage ≡ "deploy") ⊎ (stage ≡ "release")

-- The environments of the deploy and release steps that name one, in the order of the steps.
pub data EnvSteps : Nodes → List String → Type 0 where
  finished : EnvSteps end []
  deploys :
      {s : Node} {ss : Nodes} {es : List String}
      → text_of (map_get "env" (some s)) ≢ ""
      → IsDeploying (text_of (map_get "stage" (some s)))
      → EnvSteps ss es
      → EnvSteps (next s ss) (text_of (map_get "env" (some s)) ∷ es)
  passes :
      {s : Node} {ss : Nodes} {es : List String}
      → (text_of (map_get "env" (some s)) ≡ "")
        ⊎ (¬ IsDeploying (text_of (map_get "stage" (some s))))
      → EnvSteps ss es
      → EnvSteps (next s ss) es

abbrev pub StepsOf : Node → List String → Type 0
StepsOf p es = EnvSteps (listed (map_get "steps" (some p))) es

step_lem :
    (env stage : String)
    → ((is_env_step env stage ≡ true) × (env ≢ "") × IsDeploying stage)
      ⊎ ((is_env_step env stage ≡ false) × ((env ≡ "") ⊎ (¬ IsDeploying stage)))
step_lem env stage = elim (Bool-cases (env == "")) [
  | inl e ↦ rw e (inr (refl, inl (ground (arith, e, eq_iff env ""))))
  | inr e ↦ elim (Bool-cases ((stage == "deploy") || (stage == "release"))) [
    | inl d ↦
        rw (e, d)
          (inl (
            refl,
            ground (arith, e, eq_iff env ""),
            ground (arith, d, eq_iff stage "deploy", eq_iff stage "release"),
          ))
    | inr d ↦
        rw (e, d)
          (inr (
            refl,
            inr λ h. absurd (ground (arith, d, h, eq_iff stage "deploy", eq_iff stage "release")),
          ))
  ]
]

steps_in-EnvSteps : (ss : Nodes) → EnvSteps ss (steps_in ss)
unfolding steps_in
steps_in-EnvSteps end = finished
steps_in-EnvSteps (next s ss) =
    elim (step_lem (text_of (map_get "env" (some s))) (text_of (map_get "stage" (some s)))) [
      | inl (e, named, stage) ↦ rw e (deploys named stage (steps_in-EnvSteps ss))
      | inr (e, why) ↦ rw e (passes why (steps_in-EnvSteps ss))
    ]

steps_of-EnvSteps : (n : Option Node) → EnvSteps (listed n) (steps_of n)
unfolding steps_in
steps_of-EnvSteps (some (sequence ss)) = steps_in-EnvSteps ss
steps_of-EnvSteps n = finished

env_steps-StepsOf : (p : Node) → StepsOf p (env_steps p)
env_steps-StepsOf p = steps_of-EnvSteps (map_get "steps" (some p))

-- No pipeline has more than `n` of them.
abbrev pub AtMost : ℕ → Entries → Type 0
AtMost n done = Unit
AtMost n (entry k p rest) = ((es : List String) × StepsOf p es × (length es ≤ n)) × AtMost n rest

-- They are those of the pipeline that has most of them, and that is before all others which do.
pub data FirstMost (steps : List String) : Entries → Type 0 where
  here :
      {k p : Node} {rest : Entries}
      → StepsOf p steps
      → AtMost (length steps) rest
      → FirstMost steps (entry k p rest)
  later :
      {k p : Node} {rest : Entries}
      → (fewer : List String) → StepsOf p fewer
      → length fewer < length steps
      → FirstMost steps rest
      → FirstMost steps (entry k p rest)

-- What `best_in` comes to from `best`, if it comes to `s`.
abbrev IsBest : List String → Entries → List String → Type 0
IsBest best ps s =
    ((s ≡ best) × AtMost (length best) ps) ⊎ ((length best < length s) × FirstMost s ps)

IsBest-more :
    (best : List String) (k p : Node) (rest : Entries) (s : List String)
    → length best < length (env_steps p)
    → IsBest (env_steps p) rest s
    → IsBest best (entry k p rest) s
IsBest-more best k p rest s more (inl (e, most)) =
    subst (IsBest best (entry k p rest)) (sym e) (inr (more, here (env_steps-StepsOf p) most))
IsBest-more best k p rest s more (inr (longer, first)) =
    inr (ground (arith, more, longer), later (env_steps p) (env_steps-StepsOf p) longer first)

IsBest-other :
    (best : List String) (k p : Node) (rest : Entries) (s : List String)
    → length (env_steps p) ≤ length best
    → IsBest best rest s
    → IsBest best (entry k p rest) s
IsBest-other best k p rest s less (inl (e, most)) =
    inl (e, ((env_steps p, env_steps-StepsOf p, less), most))
IsBest-other best k p rest s less (inr (longer, first)) =
    inr (longer, later (env_steps p) (env_steps-StepsOf p) (ground (arith, less, longer)) first)

best_in-IsBest : (ps : Entries) (best : List String) → IsBest best ps (best_in ps best)
unfolding best_in
best_in-IsBest done best = inl (refl, tt)
best_in-IsBest (entry k p rest) best =
    elim (Bool-cases (ltb (length best) (length (env_steps p)))) [
      | inl more ↦ rw more (
          IsBest-more best k p rest (best_in rest (env_steps p)) (ground (arith, more))
            (best_in-IsBest rest (env_steps p)))
      | inr less ↦ rw less (
          IsBest-other best k p rest (best_in rest best) (ground (arith, less))
            (best_in-IsBest rest best))
    ]

-- The steps of the first pipeline with most of them; none, if no pipeline has any.
abbrev pub MostSteps : Entries → List String → Type 0
MostSteps ps steps = ((steps ≡ []) × AtMost 0 ps) ⊎ FirstMost steps ps

pub best_of-MostSteps : (n : Option Node) → MostSteps (pipelines_of n) (best_of n)
best_of-MostSteps none = inl (refl, tt)
best_of-MostSteps (some (mapping ps)) = elim (best_in-IsBest ps []) [
  | inl e ↦ inl e
  | inr (more, first) ↦ inr first
]
best_of-MostSteps (some n) = inl (refl, tt)

-- Each name of the first list once, in the order in which they first come.
pub data Firsts : List String → List String → Type 0 where
  empty : Firsts [] []
  first :
      {e : String} {es os : List String}
      → Firsts (keep (λ x. not (e == x)) es) os
      → Firsts (e ∷ es) (e ∷ os)

abbrev unseen : List String → String → Bool
unseen seen e = not (any (λ s. s == e) seen)

keep-unseen :
    (e : String) (seen es : List String)
    → keep (λ x. not (e == x)) (keep (unseen seen) es) ≡ keep (unseen (e ∷ seen)) es
keep-unseen e seen [] = refl
keep-unseen e seen (x ∷ xs) = ground (arith, keep-unseen e seen xs)

once-Firsts : (seen es : List String) → Firsts (keep (unseen seen) es) (once seen es)
unfolding once
once-Firsts seen [] = empty
once-Firsts seen (e ∷ es) = elim (Bool-cases (any (λ s. s == e) seen)) [
  | inl old ↦ rw old (once-Firsts seen es)
  | inr new ↦ rw new (
      first (
        subst (λ l. Firsts l (once (e ∷ seen) es)) (sym (keep-unseen e seen es))
          (once-Firsts (e ∷ seen) es)))
]

keep-all : (es : List String) → keep (unseen []) es ≡ es
keep-all [] = refl
keep-all (e ∷ es) = ground (arith, keep-all es)

pub once_lem : (es : List String) → Firsts es (once [] es)
once_lem es = subst (λ l. Firsts l (once [] es)) (keep-all es) (once-Firsts [] es)
