-- ===== src/Extractor.antt =====
-- extract/cppextractor.h: the data of the extractor of C++, Java and Lua sources.
pub mod Patterns
pub mod Parse
pub mod Query
pub mod Settings
pub mod Numbers
pub mod CallOuts
pub mod Print
pub mod Read
pub mod Bounds
pub mod Plain
pub mod Induction
pub mod Sections
pub mod Nesting
use extractor.Base.{ℕ, Bool, true, false, List, [], Bytes, Dict, ℤ}

-- `mLineSpans` are half-open intervals of line numbers.
pub record Snippet : Type 0 where
  pub line_spans : List (ℕ × ℕ)
  pub name : Bytes
  pub excludes : List Bytes
  pub text_if_excluded : Bytes

pub record CallOut : Type 0 where
  pub line_number : ℕ
  pub column : ℕ
  pub number : ℤ
  pub text : Bytes
  pub comment_column : ℕ

pub record Extractor : Type 0 where
  pub path : Bytes
  pub skip_block_comments : Bool
  pub skip_empty_lines : Bool
  pub skip_snippet_definitions : Bool
  pub include_omitted_lines : Bool
  pub highlight_lines : Bool
  pub has_omitted_lines : Bool
  pub file_contents : List Bytes
  pub callouts : Dict ℕ CallOut
  pub snippets : Dict Bytes Snippet
  pub highlighted_lines : List ℕ
  pub lua : Bool

-- The constructor `CppExtractor(path)` with the initialisers of the members.
abbrev pub construct : Bytes → Extractor
construct path = record {
  path = path;
  skip_block_comments = true;
  skip_empty_lines = true;
  skip_snippet_definitions = true;
  include_omitted_lines = false;
  highlight_lines = true;
  has_omitted_lines = false;
  file_contents = [];
  callouts = [];
  snippets = [];
  highlighted_lines = [];
  lua = false;
}

-- `activateLua()`
unfoldable pub activate_lua : Extractor → Extractor
activate_lua e = record e { lua = true }
