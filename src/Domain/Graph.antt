-- ===== src/Domain/Graph.antt =====
-- backend/domain/models.py: the nodes and edges of the knowledge graph. A property is one of the
-- kinds of value that the source admits, without the negative and the fractional numbers, which
-- nothing writes; a moment is a number.
use vectural.Prelude.{ℕ, Bool, String, Option, List, Key, discrete_key}
use vectural.Prelude.Dict.{Dict}
use mathlib.Core.HLevel.{Discrete}

pub data NodeKind : Type 0 where
  service module_ file function endpoint topic capability flow adr : NodeKind

pub data EdgeKind : Type 0 where
  calls publishes consumes exposes contains defines implemented_by traverses decides_on : EdgeKind

unfoldable pub NodeKind-discrete : Discrete NodeKind
NodeKind-discrete = hlevel

unfoldable pub EdgeKind-discrete : Discrete EdgeKind
EdgeKind-discrete = hlevel

instance unfoldable pub node_kind_key : Key NodeKind
unfolding NodeKind-discrete
node_kind_key = discrete_key NodeKind-discrete

instance unfoldable pub edge_kind_key : Key EdgeKind
unfolding EdgeKind-discrete
edge_kind_key = discrete_key EdgeKind-discrete

pub data Property : Type 0 where
  text : String → Property
  number : ℕ → Property
  flag : Bool → Property
  missing : Property

pub record Node : Type 0 where
  pub kind : NodeKind
  -- unique within its kind
  pub key : String
  pub properties : Dict String Property
  pub commit_sha : String
  pub indexed_at : ℕ
  pub prompt_version : Option String

pub record Edge : Type 0 where
  pub kind : EdgeKind
  pub src_kind : NodeKind
  pub src_key : String
  pub dst_kind : NodeKind
  pub dst_key : String
  pub properties : Dict String Property

-- `NodeRef` of backend/graph/store.py
abbrev pub NodeRef : Type 0
NodeRef = NodeKind × String

pub record GraphDelta : Type 0 where
  pub nodes : List Node
  pub edges : List Edge
