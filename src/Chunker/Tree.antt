-- ===== src/Chunker/Tree.antt =====
-- backend/ingestion/chunker.py: the definitions of a syntax tree. A node holds what the code reads
-- of tree-sitter's: `name` is the text of the field that the language's spec calls the name.
use vectural.Prelude.{
  ℕ, ◌-◌, Bool, true, false, not, ◌&&◌, String, Option, none, some, List, [], ◌∷◌, ◌++◌, contains,
  string_key, ◌==◌, ltb, if◌then◌else◌,
}
use vectural.Chunker.Rows.{ChunkKind, function, class, method, Def, Span}

pub record NodeInfo : Type 0 where
  pub type : String
  pub start_row : ℕ
  pub end_row : ℕ
  pub named : Bool
  pub name : Option String
  pub text : String

mutual
  pub data Node : Type 0 where
    node : NodeInfo → Nodes → Node

  pub data Nodes : Type 0 where
    nil : Nodes
    cons : Node → Nodes → Nodes

-- What the chunker reads of a `LanguageSpec`.
pub record LanguageSpec : Type 0 where
  pub func_nodes : List String
  pub class_nodes : List String
  pub ident_nodes : List String
  pub wrapper_span_nodes : List String

pub data Role : Type 0 where
  func_role class_role no_role : Role

abbrev pub info : Node → NodeInfo
info (node i children) = i

-- `_role`
role : String → LanguageSpec → Role
role type spec =
    if contains type spec.func_nodes
    then func_role
    else if contains type spec.class_nodes
    then class_role
    else no_role

-- `_declared_name`: an empty text is no name
declared_name : Node → Option String
declared_name n = elim (info n).name [
  | none ↦ none
  | some text ↦ if text == "" then none else some text
]

first_name : Option String → Option String → Option String
first_name none other = other
first_name (some name) other = some name

-- `_resolve_span_and_name`: the ancestors are given nearest first
resolve : LanguageSpec → Node → Option String → List Node → Node × Option String
unfolding first_name declared_name
resolve spec span_node name [] = (span_node, name)
resolve spec span_node name (parent ∷ ancestors) =
    let up = resolve spec parent (first_name name (declared_name parent)) ancestors in
    if contains (info parent).type spec.wrapper_span_nodes then up else (span_node, name)

past_row : Option ℕ → ℕ → Bool
past_row none row = false
past_row (some max_row) row = ltb max_row row

add_identifier : LanguageSpec → NodeInfo → Nodes → List String → List String
add_identifier spec i nil out =
    if contains i.type spec.ident_nodes && not (i.text == "") && not (contains i.text out)
    then out ++ i.text ∷ []
    else out
add_identifier spec i (cons n ns) out = out

-- `_identifiers`: the stack of the source visits the nodes in preorder
mutual
  identifiers_of : LanguageSpec → Option ℕ → List String → Node → List String
  identifiers_of spec max_row out (node i children) =
      let below = identifiers_in spec max_row (add_identifier spec i children out) children in
      if past_row max_row i.start_row then out else below

  identifiers_in : LanguageSpec → Option ℕ → List String → Nodes → List String
  identifiers_in spec max_row out nil = out
  identifiers_in spec max_row out (cons n ns) =
      identifiers_in spec max_row (identifiers_of spec max_row out n) ns

least_start : ℕ → List Def → ℕ
least_start m [] = m
least_start m (d ∷ ds) = least_start (if ltb d.start_row m then d.start_row else m) ds

draft : LanguageSpec → ChunkKind → Node → Option String → ℕ → Option ℕ → Def
draft spec kind span_node symbol end_row max_row = record {
  kind = kind;
  start_row = (info span_node).start_row;
  end_row = end_row;
  symbol = symbol;
  identifiers = identifiers_of spec max_row [] span_node;
}

-- the drafts of a function
func_defs : LanguageSpec → Bool → Node × Option String → List Def × List Span
unfolding draft
func_defs spec inside_class (span_node, symbol) =
    let kind = if inside_class then method else function in
    (draft spec kind span_node symbol (info span_node).end_row none ∷ [], [])

-- the drafts of a class, given those of its members
class_defs : LanguageSpec → Node × Option String → List Def × List Span → List Def × List Span
unfolding draft least_start
class_defs spec (span_node, symbol) ([], containers) = (
  draft spec class span_node symbol (info span_node).end_row none ∷ [],
  ((info span_node).start_row, (info span_node).end_row) ∷ containers,
)
class_defs spec (span_node, symbol) (d ∷ ds, containers) =
    let first_member = least_start d.start_row ds in
    let header_end = first_member - 1 in
    let header =
      if ltb (info span_node).start_row first_member
      then draft spec class span_node symbol header_end (some header_end) ∷ []
      else [] in
    (header ++ (d ∷ ds), ((info span_node).start_row, (info span_node).end_row) ∷ containers)

-- what a child gives by its role
by_role :
    LanguageSpec
    → Bool
    → Node × Option String
    → List Def × List Span
    → List Def × List Span
    → Role
    → List Def × List Span
unfolding func_defs class_defs
by_role spec inside_class found inner members no_role = inner
by_role spec inside_class found inner members func_role = func_defs spec inside_class found
by_role spec inside_class found inner members class_role = class_defs spec found members

abbrev join_defs : List Def × List Span → List Def × List Span → List Def × List Span
join_defs a b = (a.0 ++ b.0, a.1 ++ b.1)

-- `_collect`, with the containers that it appends
mutual
  unfolding resolve declared_name role by_role

  pub collect : LanguageSpec → Bool → List Node → Node → List Def × List Span
  collect spec inside_class ancestors (node i children) =
      collect_children spec inside_class (node i children ∷ ancestors) children

  pub collect_children : LanguageSpec → Bool → List Node → Nodes → List Def × List Span
  collect_children spec inside_class ancestors nil = ([], [])
  collect_children spec inside_class ancestors (cons child rest) =
      let later = collect_children spec inside_class ancestors rest in
      let inner = collect spec inside_class ancestors child in
      let members = collect spec true ancestors child in
      let found = resolve spec child (declared_name child) ancestors in
      let here = by_role spec inside_class found inner members (role (info child).type spec) in
      if (info child).named then join_defs here later else later
