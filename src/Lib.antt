-- ===== src/Lib.antt =====
-- extractor: a verification library for the source code extractor, which cuts snippets out of
-- source files and writes them as Asciidoc.
--
-- The parts of the program and the files that model them (paths from the repository's root):
--
--   Extractor.antt, Extractor/  extract/cppextractor.h and extract/cppextractor.cc: `CppExtractor`.
--     `Extractor` is the object with its members, `Parsing` the object with the local variables of
--     `parse`. `Extractor/Patterns` holds the regular expressions, `Extractor/Parse` and its children
--     the loop: `next_line` is one round, `dispatch` the chain of tests for a callout, the start and
--     the end of a snippet, with `call_out_line`, `start_line` and `end_line` for the branches, and
--     `finish` what stands behind the loop. `Extractor/Query` holds `containsLine`,
--     `isLineExcluded`, `hasExcludeText` and `excludeText`. The other files below it hold proofs.
--   Generator.antt, Generator/  extract/asciidocsnippetfilegenerator.h and
--     extract/asciidocsnippetfilegenerator.cc: the object, the loops of `generate` that collect the
--     code lines of a snippet (`Generator/Body`), the text of a snippet's file
--     (`Generator/Text`), and `generate` as a whole with what it does to the files, in its order
--     (`Generator/Run`). The generator reads the lines, callouts, snippets and highlighted lines
--     that the extractor stored.
--   Astyle.antt  extract/astyle.h and extract/astyle.cc: the options that reach the formatter.
--   Util.antt, Util/  libwm/util.cc: trimming and replacing in strings. `replace_loop` runs on fuel; one
--     round more than the subject has characters is enough.
--   Asm.antt, Asm/  extract/asmextractor.h and extract/asmextractor.cc: `AsmExtractor`, with its stack
--     of open functions (`asm_line` is one round of the loop of `parse`) and its regular expressions
--     in `Asm/Patterns`; and extract/asciidocasmgenerator.h and extract/asciidocasmgenerator.cc, which
--     writes a file for each function that the extractor stored (`Asm/Generator`). The other files
--     below it hold proofs.
--   CommandLine.antt, CommandLine/  extract/commandlineoption.h, extract/commandlineoption.cc,
--     extract/commandlineparser.h and extract/commandlineparser.cc: the options, and `parse_args` for
--     the loop of `parse`, where an argument is done with by itself or asks for the one behind it.
--   Streams.antt, Streams/  libwm/algorithm.h and libwm/algorithm.cc: printing of containers and pairs,
--     and in `Streams/Input` their readers. A stream is what is left of its text with the bits
--     `eofbit` and `failbit`; a loop that looks for a closing bracket runs on fuel, where `none` means
--     that it ran out. `Extractor/Read` is the reader of snippets on top of it.
--   Program.antt, Program/  extract/extractor.cc: `main` behind the command line, whose values are the
--     record `Options`, with the settings in `Generator/Settings` and `Extractor/Settings`, and the
--     check of the MIME type. `World` holds what the program finds around it.
--   Axtractor.antt  extract/axtractor.cc: `main` behind the command line.
--   FileMagic.antt, FileMagic/  libwm/filemagic.h and libwm/filemagic.cc: MIME types, their text and
--     their parser, and `FileMagicImpl` on top of libmagic. The loop over the parameters runs on fuel
--     of one more than the bytes of the list.
--   Filesystem.antt  libwm/filesystem.h and libwm/filesystem.cc: the questions about paths, where a path
--     is the list of its elements.
--   Optional.antt  libwm/optional.h: the class template, with its value where none is valid.
--   SignalHandler.antt, SignalHandler/  libwm/unixsignalhandler.h and libwm/unixsignalhandler.cc: the
--     static members and what the object emits. `Order` runs arrivals and activations in any order.
--   Tracer.antt, Tracer/  libwm/tracer.h and libwm/tracer.cc: `Tracing` holds the static members and
--     what the streams were given; `Tracer/Nesting` runs the calls of a program.
--   Avrasmopt.antt  extract/avrasmopt.cc: `main` on top of the command line parser.
--   Desertest.antt  extract/desertest.cc: `main` on top of the reader of snippets.
-- Below them lie Regex.antt, the part of `std::regex` that the program uses, as a backtracking
-- matcher over lists of items, with its language as an inductive relation, and in `Regex/Groups`
-- with groups that are optional or repeated; Boost.antt, the
-- operations of Boost.StringAlgo that the program calls, which are parameters; and Base.antt, the
-- shared names. Tests.antt and its children run the definitions and apply the theorems.
--
-- Texts are lists of byte values. `std::map` and `std::set` are association lists in key order.
-- Code that can throw or leave the defined behaviour of C++ returns an `Outcome`: `out_of_range`
-- is the exception of that name, `undefined` an access behind the end of a container. Counters of
-- stored lines are natural numbers: they count the elements of a vector in memory, so they stay
-- below 2^64. A file is the bytes that it holds, if it can be opened.
-- `to_string` runs on fuel of one more than the number, and a number has no more digits than that.
--
-- Parameters: the Boost operations, `AStyleMain` of Artistic Style (taken to return a text), and the
-- contents of the files, the values of the command line, the text that libmagic tells of a file, the
-- pipe of the system, what the system tells of a path (whether it exists, can be executed or can be
-- made a directory), and the times that the timer counts.
--
-- Not modelled: the trace output of the parts; how directories are made and paths computed, which
-- are the file system's; how extractor and axtractor read their command line, which is Lyra's; the
-- vendored Lyra, Boost.Process and Folly; the test harness. Floating point (`valuesAreClose`) has no
-- counterpart.
pub mod Base
pub mod Regex
pub mod Boost
pub mod Util
pub mod Extractor
pub mod Astyle
pub mod Generator
pub mod Asm
pub mod CommandLine
pub mod Streams
pub mod FileMagic
pub mod Filesystem
pub mod Optional
pub mod SignalHandler
pub mod Tracer
pub mod Program
pub mod Axtractor
pub mod Desertest
pub mod Avrasmopt
pub mod Tests
