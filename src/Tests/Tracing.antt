-- ===== src/Tests/Tracing.antt =====
-- Runs of the tracer, and its theorem at a concrete call.
use extractor.Base.{◌≡◌, true, [], ◌∷◌, codes, arith, to_string}
use extractor.Tracer.{TraceLevel, initial_tracing, prefixes, rank}
use extractor.Tracer.Nesting.{Events, run_events, run_events-texts, texts, depth}

abbrev sample : Events
sample =
    Events.call (codes "main") TraceLevel.trace 12
      (Events.say TraceLevel.info true (codes "x" ∷ codes "y" ∷ []) Events.done) Events.done

run_events-texts_example : run_events sample initial_tracing ≡ record initial_tracing {
  written =
      (0, codes "-->main\n")
      ∷ (0, codes "   x ")
      ∷ (0, codes "   y ")
      ∷ (0, codes "\n")
      ∷ (0, codes "<--main [us: 12]\n")
      ∷ [];
}
unfolding texts depth prefixes rank to_string
run_events-texts_example = run_events-texts sample initial_tracing (omega arith)
