-- ===== src/Environments/Plan.antt =====
-- glidepath/api/internal/environments/plan.go, `planOf`: an application's environments and their order.
pub mod Order
pub mod Steps
use glidepath.Prelude.{
  ℕ, suc, String, Bool, true, false, ◌&&◌, ◌||◌, not, List, [], ◌∷◌, Option, some, none, ◌==◌, ltb,
  length, map, if◌then◌else◌,
}
use glidepath.Prelude.Sort.{any}
use glidepath.Environments.Yaml.{
  Node, Nodes, Entries, mapping, sequence, scalar_node, end, next, done, entry, Scalars, map_get,
  scalar, text_of, truthy,
}

-- `UpperEnvironment`.
pub record UpperEnvironment : Type 0 where
  pub name : String
  pub cluster : String
  pub production : Bool

-- `Plan`; `from_steps` is its `orderSource` "pipeline-steps".
pub record ReleasePlan : Type 0 where
  pub order : List String
  pub from_steps : Bool
  pub lower : List String
  pub upper : List UpperEnvironment
  pub release_file : Option String

-- The environments of deploy.environments: their names, and those of the two tiers.
pub record Declared : Type 0 where
  pub names : List String
  pub ground : List String
  pub flight : List UpperEnvironment

-- The name of an entry, if it is a string.
abbrev pub string_of : Option Node → Option String
string_of (some (scalar_node tag v)) = if tag == "!!str" then some v else none
string_of n = none

abbrev pub or_empty : Option String → String
or_empty none = ""
or_empty (some s) = s

abbrev pub bool_of : Scalars → Option Node → Bool
bool_of lib (some (scalar_node tag v)) = (tag == "!!bool") && lib.is_true v
bool_of lib n = false

abbrev pub upper_of : Scalars → String → Node → UpperEnvironment
upper_of lib name e = record {
  name = name;
  cluster = or_empty (truthy lib (map_get "cluster" (some e)));
  production = bool_of lib (map_get "production" (some e));
}

-- An entry of the list before the others.
abbrev pub with_entry : Scalars → Node → Option String → Declared → Declared
with_entry lib e none d = d
with_entry lib e (some name) d = record {
  names = name ∷ d.names;
  ground = if text_of (map_get "tier" (some e)) == "ground" then name ∷ d.ground else d.ground;
  flight =
      if text_of (map_get "tier" (some e)) == "flight"
      then upper_of lib name e ∷ d.flight
      else d.flight;
}

unfoldable pub declared_in : Scalars → Nodes → Declared
declared_in lib end = record { names = []; ground = []; flight = [] }
declared_in lib (next e es) =
    with_entry lib e (string_of (map_get "name" (some e))) (declared_in lib es)

abbrev pub declared_of : Scalars → Option Node → Declared
declared_of lib (some (sequence es)) = declared_in lib es
declared_of lib n = record { names = []; ground = []; flight = [] }

-- `known`, and `allKnown`.
abbrev pub is_known : Declared → String → Bool
is_known d e = any (λ g. g == e) d.ground || any (λ (u : UpperEnvironment). u.name == e) d.flight

abbrev pub every_known : Declared → List String → Bool
every_known d [] = true
every_known d (e ∷ es) = is_known d e && every_known d es

abbrev pub all_known : Declared → Bool
all_known d = not (ltb (length d.names) 1) && every_known d d.names

-- The environments of a pipeline's deploy and release steps.
abbrev pub is_env_step : String → String → Bool
is_env_step env stage = not (env == "") && ((stage == "deploy") || (stage == "release"))

unfoldable pub steps_in : Nodes → List String
steps_in end = []
steps_in (next s ss) =
    let rest = steps_in ss in
    let env = text_of (map_get "env" (some s)) in
    if is_env_step env (text_of (map_get "stage" (some s))) then env ∷ rest else rest

abbrev pub steps_of : Option Node → List String
steps_of (some (sequence ss)) = steps_in ss
steps_of n = []

abbrev pub env_steps : Node → List String
env_steps p = steps_of (map_get "steps" (some p))

-- The pipeline with the most of them; the first of those that tie.
unfoldable pub best_in : Entries → List String → List String
best_in done best = best
best_in (entry k p rest) best =
    let steps = env_steps p in
    best_in rest (if ltb (length best) (length steps) then steps else best)

abbrev pub best_of : Option Node → List String
best_of (some (mapping ps)) = best_in ps []
best_of n = []

-- Each name once, where it is first.
unfoldable pub once : List String → List String → List String
once seen [] = []
once seen (e ∷ es) =
    let skipped = once seen es in
    let taken = once (e ∷ seen) es in if any (λ s. s == e) seen then skipped else e ∷ taken

abbrev pub file_of : Scalars → Option Node → Option String
file_of lib none = none
file_of lib (some n) = lib.value n

-- `planOf`.
unfoldable pub plan_of : Scalars → Node → ReleasePlan
plan_of lib doc =
    let deploy = map_get "deploy" (some doc) in
    let d = declared_of lib (map_get "environments" deploy) in
    record {
      order = if all_known d then d.names else once [] (best_of (map_get "pipelines" (some doc)));
      from_steps = not (all_known d);
      lower = d.ground;
      upper = d.flight;
      release_file = file_of lib (map_get "releaseFile" deploy);
    }

-- `isLower`, and `index`, none for its -1; `fold` is `strings.EqualFold`.
unfoldable pub is_lower : (String → String → Bool) → ReleasePlan → String → Bool
is_lower fold p env = any (λ e. fold e env) p.lower

abbrev pub after_one : Option ℕ → Option ℕ
after_one none = none
after_one (some i) = some (suc i)

unfoldable pub index_in : (String → String → Bool) → List String → String → Option ℕ
index_in fold [] env = none
index_in fold (e ∷ es) env =
    let later = index_in fold es env in if fold e env then some 0 else after_one later
