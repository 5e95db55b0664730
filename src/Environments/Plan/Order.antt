-- ===== src/Environments/Plan/Order.antt =====
-- The order of the environments in `planOf` of environments/plan.go.
use glidepath.Prelude.{
  ◌≡◌, ◌≢◌, refl, String, Bool, true, false, ◌||◌, ◌&&◌, not, List, [], ◌∷◌, Option, some, none,
  ◌==◌, eq_iff, All, Bool-cases, inl, inr, ◌⊎◌, arith, if◌then◌else◌,
}
use glidepath.Environments.Yaml.{
  Node, Nodes, mapping, sequence, scalar_node, empty, document, alias_node, end, next, Scalars,
  map_get, text_of,
}
use glidepath.Environments.Plan.{
  Declared, declared_in, declared_of, with_entry, string_of, is_known, every_known, all_known,
  best_of, once, plan_of,
}
use glidepath.Environments.Plan.Steps.{
  listed, pipelines_of, MostSteps, best_of-MostSteps, Firsts, once_lem,
}

-- An entry of deploy.environments has this name.
abbrev pub IsNamed : Node → String → Type 0
IsNamed n name = map_get "name" (some n) ≡ some (scalar_node "!!str" name)

-- The names of the entries that have one, in their order.
pub data Names : Nodes → List String → Type 0 where
  finished : Names end []
  named :
      {n : Node} {ns : Nodes} {es : List String} {e : String}
      → IsNamed n e
      → Names ns es
      → Names (next n ns) (e ∷ es)
  unnamed :
      {n : Node} {ns : Nodes} {es : List String}
      → ((e : String) → ¬ IsNamed n e)
      → Names ns es
      → Names (next n ns) es

-- Some entry gives this name one of the two tiers.
abbrev pub IsTiered : Nodes → String → Type 0
IsTiered end e = ⊥
IsTiered (next n ns) e =
    (IsNamed n e
      × ((text_of (map_get "tier" (some n)) ≡ "ground")
          ⊎ (text_of (map_get "tier" (some n)) ≡ "flight")))
    ⊎ IsTiered ns e

string_of-cases :
    (o : Option Node)
    → ((v : String) × (o ≡ some (scalar_node "!!str" v)) × (string_of o ≡ some v))
      ⊎ ((string_of o ≡ none) × ((v : String) → o ≢ some (scalar_node "!!str" v)))
string_of-cases none = inr (refl, λ v e. cc)
string_of-cases (some (scalar_node tag v)) = elim (Bool-cases (tag == "!!str")) [
  | inl e ↦
      let same : tag ≡ "!!str" = (eq_iff tag "!!str").0 e in rw (e, same) (inl (v, refl, refl))
  | inr e ↦ rw e (inr (refl, λ w h. absurd (ground (arith, e, h, eq_iff tag "!!str"))))
]
string_of-cases (some empty) = inr (refl, λ v e. cc)
string_of-cases (some (document n)) = inr (refl, λ v e. cc)
string_of-cases (some (mapping n)) = inr (refl, λ v e. cc)
string_of-cases (some (sequence n)) = inr (refl, λ v e. cc)
string_of-cases (some (alias_node a n)) = inr (refl, λ v e. cc)

declared_in-Names : (lib : Scalars) (ns : Nodes) → Names ns (declared_in lib ns).names
unfolding declared_in
declared_in-Names lib end = finished
declared_in-Names lib (next n ns) = elim (string_of-cases (map_get "name" (some n))) [
  | inl (v, named', e) ↦ rw e (named named' (declared_in-Names lib ns))
  | inr (e, other) ↦ rw e (unnamed other (declared_in-Names lib ns))
]

-- What one entry adds to the names that `known` holds for.
is_known-with_entry :
    (lib : Scalars) (n : Node) (v : String) (d : Declared) (e : String)
    → is_known (with_entry lib n (some v) d) e ≡ (
        ((v == e)
          && ((text_of (map_get "tier" (some n)) == "ground")
              || (text_of (map_get "tier" (some n)) == "flight")))
        || is_known d e)
is_known-with_entry lib n v d e =
    elim (Bool-cases (text_of (map_get "tier" (some n)) == "ground")) [
      | inl g ↦ elim (Bool-cases (text_of (map_get "tier" (some n)) == "flight")) [
        | inl f ↦ rw (g, f) (ground arith)
        | inr f ↦ rw (g, f) (ground arith)
      ]
      | inr g ↦ elim (Bool-cases (text_of (map_get "tier" (some n)) == "flight")) [
        | inl f ↦ rw (g, f) (ground arith)
        | inr f ↦ rw (g, f) (ground arith)
      ]
    ]

known-named :
    (lib : Scalars) (n : Node) (ns : Nodes) (v e : String)
    → IsNamed n v
    → is_known (declared_in lib (next n ns)) e ≡ (
        ((v == e)
          && ((text_of (map_get "tier" (some n)) == "ground")
              || (text_of (map_get "tier" (some n)) == "flight")))
        || is_known (declared_in lib ns) e)
unfolding declared_in
known-named lib n ns v e h = rw h (is_known-with_entry lib n v (declared_in lib ns) e)

known-unnamed :
    (lib : Scalars) (n : Node) (ns : Nodes) (e : String)
    → string_of (map_get "name" (some n)) ≡ none
    → is_known (declared_in lib (next n ns)) e ≡ is_known (declared_in lib ns) e
unfolding declared_in
known-unnamed lib n ns e h = rw h refl

is_known-IsTiered :
    (lib : Scalars) (ns : Nodes) (e : String)
    → is_known (declared_in lib ns) e ≡ true
    → IsTiered ns e
is_known-IsTiered lib end e h = unfold declared_in in absurd (ground (arith, h))
is_known-IsTiered lib (next n ns) e h = elim (string_of-cases (map_get "name" (some n))) [
  | inr (s, other) ↦ inr (is_known-IsTiered lib ns e (rw (← known-unnamed lib n ns e s) h))
  | inl (v, named', s) ↦ elim (Bool-cases (is_known (declared_in lib ns) e)) [
    | inl k ↦ inr (is_known-IsTiered lib ns e k)
    | inr k ↦
        let tier = text_of (map_get "tier" (some n)) in
        let here : ((v == e) && ((tier == "ground") || (tier == "flight"))) ≡ true =
          ground (arith, h, k, known-named lib n ns v e named') in
        let same : v ≡ e = ground (arith, here, eq_iff v e) in
        inl (rw (← same) named', ground (arith, here, eq_iff tier "ground", eq_iff tier "flight"))
  ]
]

IsTiered-is_known :
    (lib : Scalars) (ns : Nodes) (e : String)
    → IsTiered ns e
    → is_known (declared_in lib ns) e ≡ true
IsTiered-is_known lib end e h = absurd h
IsTiered-is_known lib (next n ns) e (inl (named', tiered)) =
    let tier = text_of (map_get "tier" (some n)) in
    ground (
      arith,
      known-named lib n ns e e named',
      tiered,
      eq_iff e e,
      eq_iff tier "ground",
      eq_iff tier "flight",
    )
IsTiered-is_known lib (next n ns) e (inr h) =
    let k = IsTiered-is_known lib ns e h in
    elim (string_of-cases (map_get "name" (some n))) [
      | inr (s, other) ↦ ground (arith, k, known-unnamed lib n ns e s)
      | inl (v, named', s) ↦ ground (arith, k, known-named lib n ns v e named')
    ]

every_known-All :
    (lib : Scalars) (ns : Nodes) (es : List String)
    → every_known (declared_in lib ns) es ≡ true
    → All (IsTiered ns) es
every_known-All lib ns [] h = tt
every_known-All lib ns (e ∷ es) h =
    (is_known-IsTiered lib ns e (ground (arith, h)), every_known-All lib ns es (ground (arith, h)))

All-every_known :
    (lib : Scalars) (ns : Nodes) (es : List String)
    → All (IsTiered ns) es
    → every_known (declared_in lib ns) es ≡ true
All-every_known lib ns [] h = refl
All-every_known lib ns (e ∷ es) (h, t) =
    ground (arith, IsTiered-is_known lib ns e h, All-every_known lib ns es t)

all_known-cases :
    (lib : Scalars) (ns : Nodes)
    → let d = declared_in lib ns in
      ((all_known d ≡ true) × (d.names ≢ []) × All (IsTiered ns) d.names)
      ⊎ ((all_known d ≡ false) × ((d.names ≡ []) ⊎ (¬ All (IsTiered ns) d.names)))
all_known-cases lib ns = by_names (declared_in lib ns).names refl
  where
    by_names :
        (es : List String)
        → (declared_in lib ns).names ≡ es
        → let d = declared_in lib ns in
          ((all_known d ≡ true) × (es ≢ []) × All (IsTiered ns) es)
          ⊎ ((all_known d ≡ false) × ((es ≡ []) ⊎ (¬ All (IsTiered ns) es)))
    by_names [] p = inr (rw p refl, inl refl)
    by_names (e ∷ es) p = elim (Bool-cases (every_known (declared_in lib ns) (e ∷ es))) [
      | inl k ↦ inl (rw p (ground (arith, k)), λ q. cc, every_known-All lib ns (e ∷ es) k)
      | inr k ↦ inr (
        rw p (ground (arith, k)),
        inr λ h. absurd (ground (arith, k, All-every_known lib ns (e ∷ es) h)),
      )
    ]

-- The order that the document asks for, and where it is from.
pub data IsOrder (ns : Nodes) (pipelines : Option Node) : Bool → List String → Type 0 where
  declared :
      {names : List String}
      → Names ns names
      → names ≢ []
      → All (IsTiered ns) names
      → IsOrder ns pipelines false names
  deployed :
      {order : List String}
      → (names steps : List String) → Names ns names
      → (names ≡ []) ⊎ (¬ All (IsTiered ns) names)
      → MostSteps (pipelines_of pipelines) steps
      → Firsts steps order
      → IsOrder ns pipelines true order

all_known-IsOrder :
    (lib : Scalars) (ns : Nodes) (pipelines : Option Node)
    → let d = declared_in lib ns in
      IsOrder ns pipelines
        (not (all_known d))
        (if all_known d then d.names else once [] (best_of pipelines))
all_known-IsOrder lib ns pipelines = elim (all_known-cases lib ns) [
  | inl (k, some', tiered) ↦ rw k (declared (declared_in-Names lib ns) some' tiered)
  | inr (k, why) ↦ rw k (
      deployed (declared_in lib ns).names (best_of pipelines) (declared_in-Names lib ns) why
        (best_of-MostSteps pipelines) (once_lem (best_of pipelines)))
]

declared-listed : (lib : Scalars) (o : Option Node) → declared_of lib o ≡ declared_in lib (listed o)
declared-listed lib (some (sequence ns)) = refl
declared-listed lib n = unfold declared_in in refl

-- A plan's order is the named entries of deploy.environments, in their order, if there are any and
-- each name has an entry of the ground or the flight tier; else it is the environments of the deploy
-- and release steps of the first pipeline with most such steps, each once, where it comes first.
pub plan_of-order :
    (lib : Scalars) (doc : Node)
    → let p = plan_of lib doc in
      let environments = map_get "environments" (map_get "deploy" (some doc)) in
      IsOrder (listed environments) (map_get "pipelines" (some doc)) p.from_steps p.order
unfolding plan_of
plan_of-order lib doc =
    let environments = map_get "environments" (map_get "deploy" (some doc)) in
    rw (declared-listed lib environments)
      (all_known-IsOrder lib (listed environments) (map_get "pipelines" (some doc)))
