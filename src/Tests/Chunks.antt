-- ===== src/Tests/Chunks.antt =====
-- Runs of the chunker on a file of five lines.
use vectural.Prelude.{true, ◌≡◌, ◌≤◌, none, some, List, [], ◌∷◌, ◌++◌, length, map, All, arith}
use vectural.Chunker.Rows.{
  Def, Line, function, span_of, is_blank, is_covered, module_residue, whole_file_module,
  window_module,
}
use vectural.Chunker.Rows.Windows.{
  rows, rows_of, all_rows, window_module_tiles, window_module_sizes,
}
use vectural.Chunker.Rows.Residue.{visible, bare, module_residue_rows, whole_file_rows}
use vectural.Chunker.Tree.{Node, node, nil, LanguageSpec}
use vectural.Chunker.Emit.{Host, FileInfo, chunk_source}
use vectural.Chunker.Emission.{AreApart, chunk_source-AreApart}

-- an import, a blank line, a function of two lines, and a call
abbrev lines : List Line
lines = (105 ∷ []) ∷ (32 ∷ []) ∷ (100 ∷ []) ∷ (114 ∷ []) ∷ (99 ∷ []) ∷ []

abbrev defs : List Def
defs =
    record { kind = function; start_row = 2; end_row = 3; symbol = some "d"; identifiers = [] } ∷ []

module_residue_rows_example :
    visible (is_blank lines) (all_rows (module_residue lines defs [] 200))
    ≡ bare (is_covered (map span_of defs ++ [])) (is_blank lines) (rows 0 (length lines))
module_residue_rows_example = module_residue_rows lines defs [] 200

whole_file_rows_example :
    visible (is_blank lines) (all_rows (whole_file_module lines 2))
    ≡ visible (is_blank lines) (rows 0 (length lines))
whole_file_rows_example = whole_file_rows lines 2

window_module_tiles_example : all_rows (window_module 3 5 2) ≡ rows 3 5
window_module_tiles_example = window_module_tiles 3 5 2 (omega arith)

window_module_sizes_example : All (λ d. length (rows_of d) ≤ 2) (window_module 3 5 2)
window_module_sizes_example = window_module_sizes 3 5 2 (omega arith) (omega arith)

abbrev root : Node
root =
    node
      (record { type = "module"; start_row = 0; end_row = 2; named = true; name = none; text = "" })
      nil

abbrev host : Host
host = record {
  parse = λ source. root;
  decode = λ bytes. "text";
  sha = λ s. "0123456789abcdef";
  decimal = λ n. "1";
}

abbrev file : FileInfo
file = record { service = "payments"; path = "payments/pay.py"; commit_sha = "c0ffee" }

abbrev python : LanguageSpec
python = record {
  func_nodes = "function_definition" ∷ [];
  class_nodes = "class_definition" ∷ [];
  ident_nodes = "identifier" ∷ [];
  wrapper_span_nodes = "decorated_definition" ∷ [];
}

chunk_source-AreApart_example :
    AreApart (chunk_source host file (some python) (105 ∷ 10 ∷ 99 ∷ 10 ∷ 120 ∷ []) 1)
chunk_source-AreApart_example =
    chunk_source-AreApart host file (some python) (105 ∷ 10 ∷ 99 ∷ 10 ∷ 120 ∷ []) 1
