-- ===== src/Fragments/Tests.antt =====
-- Runs of the cycle check.
use django_graphex.Common.{◌≡◌, ◌↔◌, refl, none, some, List, [], ◌∷◌}
use django_graphex.Graphql.Ast.{Definition, fragment, spread, nil, cons, Fragment}
use django_graphex.Graphql.Sample.{friends_fragment}
use django_graphex.Fragments.{find_fragment_cycle, fragments_of, build, reduce, sets}
use django_graphex.Fragments.Verdict.{IsAcyclic, find_fragment_cycle-none_iff}

abbrev refers_back : Fragment
refers_back = record {
  name = "G";
  type_condition = "User";
  selection_set = cons (spread "F" []) (cons (spread "G" []) nil);
}

abbrev circle : List Definition
circle = fragment refers_back ∷ fragment friends_fragment ∷ []

find_fragment_cycle-none_iff_example : (find_fragment_cycle circle ≡ none) ↔ IsAcyclic circle
find_fragment_cycle-none_iff_example = find_fragment_cycle-none_iff circle

circle_found : find_fragment_cycle circle ≡ some refers_back
unfolding find_fragment_cycle fragments_of build reduce sets
circle_found = refl
