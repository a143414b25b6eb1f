-- ===== src/StrConv/Tests.antt =====
-- Runs of the conversion.
use django_graphex.Common.{◌≡◌, refl, none, map}
use django_graphex.StrConv.{to_snake_case, codes}
use django_graphex.StrConv.Snake.{lower}
use django_graphex.StrConv.Words.{words, to_snake_case-words}

to_snake_case-words_example :
    to_snake_case (codes "ABCFooBar2D") ≡ map lower (words none (codes "ABCFooBar2D"))
unfolding codes
to_snake_case-words_example = to_snake_case-words (codes "ABCFooBar2D") refl

camel_runs : to_snake_case (codes "ABCFooBar2D") ≡ codes "abc_foo_bar2_d"
unfolding to_snake_case codes
camel_runs = refl
