-- ===== src/Environments/Yaml.antt =====
-- glidepath/api/internal/environments/plan.go: its reads of YAML documents, on the nodes that the YAML
-- library parses.
use glidepath.Prelude.{
  String, Bool, true, false, Option, some, none, ◌==◌, ◌||◌, ◌&&◌, List, [], ◌∷◌, if◌then◌else◌,
}
use glidepath.Prelude.Sort.{any}

-- `yaml.Node`: a scalar has its short tag and its text, an alias the name and the node that it is of;
-- a text without a document is empty.
mutual
  pub data Node : Type 0 where
    empty : Node
    document : Node → Node
    mapping : Entries → Node
    sequence : Nodes → Node
    scalar_node : String → String → Node
    alias_node : String → Node → Node

  pub data Nodes : Type 0 where
    end : Nodes
    next : Node → Nodes → Nodes

  pub data Entries : Type 0 where
    done : Entries
    entry : Node → Node → Entries → Entries

-- What the library makes of a scalar's text, and of a value to be answered as it was written.
pub record Scalars : Type 0 where
  pub is_true : String → Bool
  pub is_nonzero : String → Bool
  pub value : Node → Option String

abbrev pub root : Node → Node
root (document n) = n
root n = n

abbrev pub target : Node → Node
target (alias_node name n) = n
target n = n

-- A node's `Value`.
abbrev pub value_of : Node → String
value_of (scalar_node tag v) = v
value_of (alias_node name n) = name
value_of n = ""

unfoldable pub entry_at : String → Entries → Option Node
entry_at key done = none
entry_at key (entry k v rest) =
    let later = entry_at key rest in if value_of k == key then some (target v) else later

abbrev pub in_mapping : String → Node → Option Node
in_mapping key (mapping es) = entry_at key es
in_mapping key n = none

-- `mapGet`.
abbrev pub map_get : String → Option Node → Option Node
map_get key none = none
map_get key (some n) = in_mapping key (target (root n))

-- `scalar`: none where it answers false.
abbrev pub scalar : Option Node → Option String
scalar (some (scalar_node tag v)) = if tag == "!!null" then none else some v
scalar n = none

-- `scalar` where only the text is used.
abbrev pub text_or_empty : Option String → String
text_or_empty none = ""
text_or_empty (some v) = v

abbrev pub text_of : Option Node → String
text_of n = text_or_empty (scalar n)

-- `truthy`: none where it answers false; a mapping or a list has no text.
abbrev pub truthy : Scalars → Option Node → Option String
truthy lib none = none
truthy lib (some (scalar_node tag v)) =
    if tag == "!!str"
    then if v == "" then none else some v
    else if tag == "!!bool"
    then if lib.is_true v then some v else none
    else if (tag == "!!int")
    then if lib.is_nonzero v then some v else none
    else if (tag == "!!float")
    then if lib.is_nonzero v then some v else none
    else none
truthy lib (some n) = some ""

-- The check of `unmarshal`: whether a mapping of the text has the same scalar key twice.
abbrev is_scalar : Node → Bool
is_scalar (scalar_node tag v) = true
is_scalar n = false

abbrev repeats : List String → Entries → Bool
repeats seen done = false
repeats seen (entry k v rest) =
    (is_scalar k && any (λ s. s == value_of k) seen) || repeats (value_of k ∷ seen) rest

unfoldable mutual
  pub has_duplicate : Node → Bool
  has_duplicate empty = false
  has_duplicate (document n) = has_duplicate n
  has_duplicate (mapping es) = repeats [] es || entries_duplicate es
  has_duplicate (sequence ns) = nodes_duplicate ns
  has_duplicate (scalar_node tag v) = false
  has_duplicate (alias_node name n) = false

  nodes_duplicate : Nodes → Bool
  nodes_duplicate end = false
  nodes_duplicate (next n ns) = has_duplicate n || nodes_duplicate ns

  entries_duplicate : Entries → Bool
  entries_duplicate done = false
  entries_duplicate (entry k v rest) =
      has_duplicate k || (has_duplicate v || entries_duplicate rest)

-- `unmarshal`, on what the library parses.
abbrev checked : Node → Option Node
checked n = if has_duplicate n then none else some n

unfoldable pub unmarshal : (String → Option Node) → String → Option Node
unmarshal parse raw = elim (parse raw) [ none ↦ none | some n ↦ checked n ]
