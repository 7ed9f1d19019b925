-- ===== src/Program/Exits.antt =====
-- extract/extractor.cc: the exit status of `main`, and the language that it chooses.
use extractor.Base.{
  ℤ, ◌≡◌, refl, Bool, true, false, not, some, Bytes, codes, bytes_eq, is_empty, ok, ◌>>=◌,
  Returns-else, Returns, Returns-bind, Bool-cases, inl, inr, if◌then◌else◌,
}
use extractor.Boost.{Boost}
use extractor.Extractor.{Extractor, activate_lua}
use extractor.Extractor.Induction.{IsFresh}
use extractor.Generator.{Generator, construct_generator, set_language}
use extractor.Generator.Run.{parse_source, generate}
use extractor.Generator.Writes.{generate-Returns}
use extractor.Generator.Settings.{indent, sub_directory, output_path, astyle_options}
use extractor.Program.{
  Options, World, check_mime_type_for_language, configure_flags, configure, when, is_positive,
  join_options, process, filter_only, write_files, has_source, run_options, main,
}

-- A setting of the generator leaves the extractor fresh.
configure_flags-IsFresh :
    (o : Options) (g : Generator) → IsFresh g.extractor → IsFresh (configure_flags o g).extractor
unfolding configure_flags
configure_flags-IsFresh o g h = record {
  no_lines = h.no_lines;
  no_callouts = h.no_callouts;
  no_snippets = h.no_snippets;
}

set_language-IsFresh :
    (l : Bytes) (g : Generator) → IsFresh g.extractor → IsFresh (set_language l g).extractor
unfolding set_language activate_lua
set_language-IsFresh l g h = elim (Bool-cases (bytes_eq l (codes "lua"))) [
  | inl lua ↦
      rw (lua, set_language)
        (record { no_lines = h.no_lines; no_callouts = h.no_callouts; no_snippets = h.no_snippets })
  | inr other ↦ rw (other, set_language) h
]

when-IsFresh :
    (b : Bool) (change : Generator → Generator) (g : Generator)
    → ((h : Generator) → IsFresh h.extractor → IsFresh (change h).extractor)
    → IsFresh g.extractor
    → IsFresh (when b change g).extractor
unfolding when
when-IsFresh true change g keeps h = keeps g h
when-IsFresh false change g keeps h = h

output_path-IsFresh :
    (path : Bytes) (g : Generator) → IsFresh g.extractor → IsFresh (output_path path g).extractor
unfolding output_path
output_path-IsFresh path g h = h

sub_directory-IsFresh :
    (name : Bytes) (g : Generator) → IsFresh g.extractor → IsFresh (sub_directory name g).extractor
unfolding sub_directory
sub_directory-IsFresh name g h = h

astyle_options-IsFresh :
    (options : Bytes) (g : Generator)
    → IsFresh g.extractor
    → IsFresh (astyle_options options g).extractor
unfolding astyle_options
astyle_options-IsFresh options g h = h

indent-IsFresh :
    (level : ℤ) (g : Generator) → IsFresh g.extractor → IsFresh (indent level g).extractor
unfolding indent
indent-IsFresh level g h = h

configure_steps :
    (o : Options) (language : Bytes) (g : Generator)
    → configure o language g
      ≡ when (is_positive o.indent) (indent o.indent) (
          when (not (is_empty o.extractor_sub_dir)) (sub_directory o.extractor_sub_dir) (
            when (not (is_empty o.output_file_path)) (output_path o.output_file_path) (
              when
                (not (is_empty o.astyle_options))
                (astyle_options (join_options o.astyle_options))
                (when (not (is_empty language)) (set_language language) (configure_flags o g)))))
unfolding configure
configure_steps o language g = refl

configure-IsFresh :
    (o : Options) (language : Bytes) (g : Generator)
    → IsFresh g.extractor
    → IsFresh (configure o language g).extractor
configure-IsFresh o language g h = rw (configure_steps o language g) (
    when-IsFresh _ _ _ (indent-IsFresh o.indent) (
      when-IsFresh _ _ _ (sub_directory-IsFresh o.extractor_sub_dir) (
        when-IsFresh _ _ _ (output_path-IsFresh o.output_file_path) (
          when-IsFresh _ _ _ (astyle_options-IsFresh (join_options o.astyle_options))
            (when-IsFresh _ _ _ (set_language-IsFresh language) (configure_flags-IsFresh o g h))))))

construct_generator-IsFresh : (path out : Bytes) → IsFresh (construct_generator path out).extractor
unfolding construct_generator
construct_generator-IsFresh path out = record {
  no_lines = refl;
  no_callouts = refl;
  no_snippets = refl;
}

module _ (boost : Boost) (astyle_main : Bytes → Bytes → Bytes) (w : World) where
  write_files-Returns :
      (g : Generator) {parsed : Extractor} {done : Bool}
      → ((path : Bytes) → w.system.opens path ≡ true)
      → w.system.has_directory ≡ true
      → IsFresh g.extractor
      → parse_source boost astyle_main w.system (w.paths g) g ≡ ok (parsed, done)
      → Returns (λ r. r.success ≡ done) (write_files boost astyle_main w g)
  unfolding write_files
  write_files-Returns g writable directory fresh parses =
      Returns-bind _ _ (generate boost astyle_main w.system (w.paths g) g) _
        (generate-Returns boost astyle_main w.system (w.paths g) writable g directory fresh parses)
        λ r hr. hr.0

  -- The generator that the program sets up.
  abbrev pub generator_of : Options → Bytes → Generator
  generator_of o language =
      configure o language (construct_generator o.source_file (w.output_path o.source_file))

  process_steps :
      (o : Options)
      → process boost astyle_main w o ≡ (
          check_mime_type_for_language
            (w.mime_type o.source_file)
            (w.extension o.source_file)
            o.language
          >>= λ language.
              if o.parse_only
              then filter_only boost astyle_main w (generator_of o language)
              else write_files boost astyle_main w (generator_of o language))
  unfolding process
  process_steps o = refl

  main_steps :
      (o : Options)
      → w.command_line ≡ some o
      → o.show_help ≡ false
      → has_source boost astyle_main w o ≡ true
      → main boost astyle_main w ≡ process boost astyle_main w o
  unfolding main run_options
  main_steps o given shown there = rw (given, main, shown, there) refl

  process-Returns :
      (o : Options) {language : Bytes} {parsed : Extractor} {done : Bool}
      → o.parse_only ≡ false
      → check_mime_type_for_language
          (w.mime_type o.source_file)
          (w.extension o.source_file)
          o.language
        ≡ ok language
      → ((path : Bytes) → w.system.opens path ≡ true)
      → w.system.has_directory ≡ true
      → parse_source boost astyle_main w.system
          (w.paths (generator_of o language))
          (generator_of o language)
        ≡ ok (parsed, done)
      → Returns (λ r. r.success ≡ done) (process boost astyle_main w o)
  process-Returns o {language = language} whole typed writable directory parses =
      rw (process_steps o, typed)
        (Returns-else (λ r. r.success ≡ _) o.parse_only _ _ whole
          (write_files-Returns (generator_of o language) writable directory
            (configure-IsFresh o language _ (construct_generator-IsFresh o.source_file _)) parses))

  -- Where the command line is valid and asks neither for the help nor for the filter only, a source
  -- file of a known MIME type is given and there, its parse returns, the sub directory is there and
  -- every file can be opened for writing, the program returns, and it ends with success exactly
  -- where the parse of its source succeeds.
  pub main-Returns :
      (o : Options) {language : Bytes} {parsed : Extractor} {done : Bool}
      → w.command_line ≡ some o
      → o.show_help ≡ false
      → o.parse_only ≡ false
      → has_source boost astyle_main w o ≡ true
      → check_mime_type_for_language
          (w.mime_type o.source_file)
          (w.extension o.source_file)
          o.language
        ≡ ok language
      → ((path : Bytes) → w.system.opens path ≡ true)
      → w.system.has_directory ≡ true
      → parse_source boost astyle_main w.system
          (w.paths (generator_of o language))
          (generator_of o language)
        ≡ ok (parsed, done)
      → Returns (λ r. r.success ≡ done) (main boost astyle_main w)
  main-Returns o given shown whole there typed writable directory parses =
      rw (main_steps o given shown there) (process-Returns o whole typed writable directory parses)
