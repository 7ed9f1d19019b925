-- ===== src/Generator/Writes.antt =====
-- extract/asciidocsnippetfilegenerator.cc: the actions of `generate` on the files and their order.
use extractor.Base.{
  and_false, ◌≡◌, refl, ap, Bool, true, false, not, List, [], ◌∷◌, map, Bytes, Dict, if◌then◌else◌,
  All, length, ok, ◌>>=◌, Returns, Returns-bind, is_empty,
}
use extractor.Boost.{Boost}
use extractor.Extractor.{Extractor, Snippet}
use extractor.Extractor.Induction.{IsFresh}
use extractor.Extractor.Bounds.{IsStored, SnippetFits}
use extractor.Extractor.Bounds.Whole.{parse-IsStored}
use extractor.Generator.{Generator}
use extractor.Generator.Text.{snippet_text}
use extractor.Generator.Total.{snippet_text-Returns}
use extractor.Generator.Run.{
  Action, write, remove, System, Paths, write_if_open, read_all, content_with, is_unformatted,
  snippet_path, write_snippets, write_all, formatted_text_of, parse_source, after_source, generate,
}

-- An action without the text: whether it writes, and the path.
abbrev pub outline : Action → Bool × Bytes
outline (write path text) = (true, path)
outline (remove path) = (false, path)

module _ (boost : Boost) (astyle_main : Bytes → Bytes → Bytes) (y : System) (paths : Paths)
    (writable : (path : Bytes) → y.opens path ≡ true) where
  abbrev snippet_outlines : Dict Bytes Snippet → List (Bool × Bytes)
  snippet_outlines = map λ s. (true, snippet_path boost astyle_main y paths s.1.name)

  write_snippets-Returns :
      (g : Generator) (snippets : Dict Bytes Snippet)
      → IsStored g.extractor
      → All (SnippetFits (length g.extractor.file_contents)) snippets
      → Returns
          (λ r. (r.0 ≡ true) × (map outline r.1 ≡ snippet_outlines snippets))
          (write_snippets boost astyle_main y paths g snippets)
  unfolding write_snippets
  write_snippets-Returns g [] stored fits = (refl, refl)
  write_snippets-Returns g ((name, s) ∷ rest) stored (fit, fits) =
      rw (writable (snippet_path boost astyle_main y paths s.name), write_snippets)
        (Returns-bind _ _ (snippet_text boost astyle_main g paths.file_name s) _
          (snippet_text-Returns boost astyle_main g paths.file_name s stored fit.1)
          λ text _.
            Returns-bind _ _ (write_snippets boost astyle_main y paths g rest) _
              (write_snippets-Returns g rest stored fits)
              λ r hr.
                (hr.0, ap (λ os. (true, snippet_path boost astyle_main y paths s.name) ∷ os) hr.1))

  -- The outline of all that follows a parse that succeeded.
  abbrev pub after_parse : Generator → List (Bool × Bytes)
  after_parse g =
      (false, paths.formatted) ∷ (true, g.output_file_path) ∷ snippet_outlines g.extractor.snippets

  write_all-Returns :
      (g : Generator)
      → y.has_directory ≡ true
      → IsStored g.extractor
      → Returns
          (λ r. (r.0 ≡ true) × (map outline r.1 ≡ after_parse g))
          (write_all boost astyle_main y paths g)
  unfolding write_all write_if_open
  write_all-Returns g directory stored =
      rw (directory, write_all, and_false (not (is_empty g.sub_directory_name)))
        (Returns-bind _ _ (write_snippets boost astyle_main y paths g g.extractor.snippets) _
          (write_snippets-Returns g g.extractor.snippets stored stored.spanned)
          λ r hr.
            rw (writable g.output_file_path)
              (hr.0, ap (λ os. (false, paths.formatted) ∷ (true, g.output_file_path) ∷ os) hr.1))

  after_source-Returns :
      (g : Generator) (text : Bytes) (parsed : Extractor) (done : Bool)
      → y.has_directory ≡ true
      → IsStored parsed
      → Returns
          (λ r.
            (r.0 ≡ done)
            × (r.1 ≡ record g { extractor = parsed })
            × (map outline r.2
                ≡ (true, paths.formatted)
                  ∷ (if done then after_parse (record g { extractor = parsed }) else [])))
          (after_source boost astyle_main y paths g (write paths.formatted text ∷ []) parsed done)
  unfolding after_source
  after_source-Returns g text parsed false directory stored = (refl, refl, refl)
  after_source-Returns g text parsed true directory stored =
      let g' = record g { extractor = parsed } in
      Returns-bind _ _ (write_all boost astyle_main y paths g') _
        (write_all-Returns g' directory stored)
        λ r hr. (hr.0, refl, ap (λ os. (true, paths.formatted) ∷ os) hr.1)

  parse_source-IsStored :
      (g : Generator) {r : Extractor × Bool}
      → IsFresh g.extractor
      → parse_source boost astyle_main y paths g ≡ ok r
      → IsStored r.0
  unfolding parse_source
  parse_source-IsStored g fresh h =
      parse-IsStored boost
        (content_with y paths.formatted
          (formatted_text_of boost astyle_main y paths g (read_all y g.extractor.path)))
        (record g.extractor {
          path = if is_unformatted g then g.extractor.path else paths.formatted;
        })
        (record {
          no_lines = fresh.no_lines;
          no_callouts = fresh.no_callouts;
          no_snippets = fresh.no_snippets;
        })
        h

  generate_steps :
      (g : Generator)
      → generate boost astyle_main y paths g ≡ (
          parse_source boost astyle_main y paths g >>= λ r.
          after_source boost astyle_main y paths g
            (write_if_open y paths.formatted
              (formatted_text_of boost astyle_main y paths g (read_all y g.extractor.path)))
            r.0
            r.1)
  unfolding generate
  generate_steps g = refl

  write_if_open-open : (path text : Bytes) → write_if_open y path text ≡ write path text ∷ []
  unfolding write_if_open
  write_if_open-open path text = rw (writable path) refl

  -- Where the parse of the source returns, the sub directory is there and every file can be
  -- opened, `generate` returns what the parse returned. It has written the temporary file; behind
  -- a parse that succeeded it has removed it, written the list of the snippets and one file for
  -- each snippet in the order of the names, and behind one that failed it has done nothing more.
  pub generate-Returns :
      (g : Generator) {parsed : Extractor} {done : Bool}
      → y.has_directory ≡ true
      → IsFresh g.extractor
      → parse_source boost astyle_main y paths g ≡ ok (parsed, done)
      → Returns
          (λ r.
            (r.0 ≡ done)
            × (r.1 ≡ record g { extractor = parsed })
            × (map outline r.2
                ≡ (true, paths.formatted)
                  ∷ (if done then after_parse (record g { extractor = parsed }) else [])))
          (generate boost astyle_main y paths g)
  generate-Returns g {parsed = parsed} {done = done} directory fresh parses =
      rw (generate_steps g, parses, write_if_open-open)
        (after_source-Returns g _ parsed done directory (parse_source-IsStored g fresh parses))
