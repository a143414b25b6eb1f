-- ===== src/Depth/Tests.antt =====
-- Runs of the depth rule on the sample schema.
use django_graphex.Common.{◌≡◌, refl, some, [], ◌∷◌, arith, is_some, not}
use django_graphex.Graphql.Ast.{type_or, root_type}
use django_graphex.Graphql.Directives.{is_selection_skipped}
use django_graphex.Graphql.Sample.{schema, runtime, query_type}
use django_graphex.Cost.Refinement.SampleTypes.{sample_types}
use django_graphex.Cost.Refinement.Fuel.{enough}
use django_graphex.Cost.Refinement.Levels.Steps.{selections_steps}
use django_graphex.Cost.Report.{operations_of, document_names}
use django_graphex.Cost.Report.Laws.{levels}
use django_graphex.Cost.Tests.{document, op, acyclic, root}
use django_graphex.Fragments.{fragments_of}
use django_graphex.Depth.Limits.{first_exceeded, child_constraints, type_max_depth}
use django_graphex.Depth.Rule.{document_errors, initial_constraints}
use django_graphex.Depth.Reference.{violations, spread_violation}
use django_graphex.Depth.Budget.Fits.{fits, spread_fits}
use django_graphex.Depth.Refinement.Result.{
  first_violations, first_violation, depth_budget, document_errors-first_violations,
  first_violation-fits,
}

document_errors-first_violations_example :
    document_errors runtime (some 1) schema 40 document
    ≡ some (first_violations runtime (some 1) schema document (op ∷ []) [])
unfolding operations_of
document_errors-first_violations_example =
    document_errors-first_violations runtime (some 1) schema document 40 sample_types acyclic
      (unfold enough selections_steps fragments_of operations_of in (omega arith, tt))

first_violations_runs :
    first_violations runtime (some 1) schema document (op ∷ []) []
    ≡ record { limit = 1; origin = 0; label = "query" } ∷ []
unfolding violations spread_violation first_exceeded child_constraints type_max_depth
    is_selection_skipped fragments_of type_or root_type initial_constraints
first_violations_runs = refl

first_violation-fits_example :
    is_some (first_violation runtime (some 1) schema document op)
    ≡ not (
        fits runtime
          (document_names schema document)
          (spread_fits runtime (document_names schema document) (levels document))
          op.selection_set
          query_type
          (depth_budget (some 1)))
first_violation-fits_example =
    first_violation-fits runtime (some 1) schema document op query_type root
