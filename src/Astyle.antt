-- ===== src/Astyle.antt =====
-- extract/astyle.h and extract/astyle.cc: the wrapper of the formatter. `AStyleMain` is the entry
-- point of the Artistic Style library, which is not part of the repository: a parameter, applied
-- to the text and the options. It is taken to return a text.
use extractor.Base.{Bytes, ◌++◌, if◌then◌else◌, is_empty, bytes_eq, codes}

pub record Astyle : Type 0 where
  pub options : Bytes
  pub language : Bytes

-- The constructor `AStyle()` with the initialiser of `mLanguage`.
abbrev pub construct : Astyle
construct = record { options = codes "-A1"; language = codes "c" }

-- `options(const std::string&)`
unfoldable pub set_options : Bytes → Astyle → Astyle
set_options options a = record a { options = options }

-- `setLanguage`
unfoldable pub set_language : Bytes → Astyle → Astyle
set_language language a =
    let b = if bytes_eq language (codes "cpp") then record a { language = codes "c" } else a in
    if bytes_eq language (codes "java") then record b { language = codes "java" } else b

-- The options that a call passes on.
unfoldable pub call_options : Astyle → Bytes
call_options a =
    if is_empty a.language then a.options else a.options ++ (codes " --mode=" ++ a.language)

module _ (astyle_main : Bytes → Bytes → Bytes) where
  -- `formattedText`
  unfoldable pub formatted_text : Astyle → Bytes → Bytes
  unfolding call_options
  formatted_text a text = astyle_main text (call_options a)

  -- `formattedCText`
  unfoldable pub formatted_c_text : Astyle → Bytes → Bytes
  unfolding call_options
  formatted_c_text a text = astyle_main text (call_options a)
