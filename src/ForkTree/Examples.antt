-- ===== src/ForkTree/Examples.antt =====
-- The tree when only the fork of `child5` fails.
use summer_school.Base.{true, false}
use summer_school.ForkTree.{Forks}

abbrev forks : Forks
forks = record { child1 = true; child2 = true; child3 = true; child4 = true; child5 = false }
