-- ===== src/Extractor/Nesting/Listed.antt =====
-- extract/cppextractor.cc: `parse`, `operator<<` of the snippets and `snippets(path)`, one behind the
-- other, on a source whose snippets nest.
use extractor.Base.{ℕ, Bytes, bytes_key}
use extractor.Boost.{Boost}
use extractor.Streams.Words.{IsToken}
use extractor.Streams.RoundTrip.{FitsPair}
use extractor.Extractor.{Extractor, Snippet}
use extractor.Extractor.Read.RoundTrip.{IsReadable}
use extractor.Extractor.Nesting.{Source}

-- The names of the snippets are words.
abbrev pub HasWords : Source → Type 0
HasWords Source.over = Unit
HasWords (Source.text line rest) = HasWords rest
HasWords (Source.snippet start name inner stop rest) = IsToken name × HasWords inner × HasWords rest

abbrev FitsSpan : Bytes × ℕ × ℕ → Type 0
FitsSpan (name, first, second) = IsToken name × FitsPair (first, second)

abbrev Entry : Bytes × Snippet → Type 0
Entry (name, s) = IsReadable s
