-- ===== src/ForkTree/Waits.antt =====
-- No process is left unawaited (les13_fork/src/ierarchy.c).
use summer_school.Base.{ℕ, suc, ◌+◌, ◌*◌, ◌≤◌, ◌≡◌, refl, Bool, true, false, arith, if◌then◌else◌}
use summer_school.ForkTree.{
  Tree, Forest, node, leaf, also, Forks, greeter, forked, first_child, second_child, main,
}

abbrev pub one_if : Bool → ℕ
one_if b = if b then 1 else 0

-- The number of direct children.
unfoldable pub children : Forest → ℕ
children leaf = 0
children (also t rest) = suc (children rest)

-- The lines that a process and all those below it print.
mutual
  pub lines : Tree → ℕ
  lines (node own waits below) = own + lines_below below

  pub lines_below : Forest → ℕ
  lines_below leaf = 0
  lines_below (also t rest) = lines t + lines_below rest

-- Every process waits at least as often as it has children.
mutual
  pub IsAwaited : Tree → Type 0
  IsAwaited (node own waits below) = (children below ≤ waits) × AreAwaited below

  pub AreAwaited : Forest → Type 0
  AreAwaited leaf = Unit
  AreAwaited (also t rest) = IsAwaited t × AreAwaited rest

greeter-IsAwaited : IsAwaited greeter
unfolding IsAwaited children
greeter-IsAwaited = (omega arith, tt)

forked-AreAwaited :
    (ok : Bool) (t : Tree) (rest : Forest)
    → IsAwaited t
    → AreAwaited rest
    → AreAwaited (forked ok t rest)
unfolding AreAwaited
forked-AreAwaited true t rest a b = (a, b)
forked-AreAwaited false t rest a b = b

children-forked :
    (ok : Bool) (t : Tree) (rest : Forest) → children (forked ok t rest) ≤ suc (children rest)
unfolding children
children-forked true t rest = omega arith
children-forked false t rest = omega arith

first_child-IsAwaited : (f : Forks) → IsAwaited (first_child f)
unfolding IsAwaited children AreAwaited first_child
first_child-IsAwaited f = (
  omega (arith, children-forked f.child3 greeter leaf),
  forked-AreAwaited f.child3 greeter leaf greeter-IsAwaited tt,
)

second_child-IsAwaited : (f : Forks) → IsAwaited (second_child f)
unfolding IsAwaited children AreAwaited second_child
second_child-IsAwaited f = (
  omega (
    arith,
    children-forked f.child4 greeter (forked f.child5 greeter leaf),
    children-forked f.child5 greeter leaf,
  ),
  forked-AreAwaited f.child4 greeter (forked f.child5 greeter leaf) greeter-IsAwaited
      (forked-AreAwaited f.child5 greeter leaf greeter-IsAwaited tt),
)

lines_first : (c : Bool) → lines_below (forked c greeter leaf) ≡ one_if c
unfolding lines lines_below
lines_first true = refl
lines_first false = refl

lines_second :
    (d e : Bool) → lines_below (forked d greeter (forked e greeter leaf)) ≡ one_if d + one_if e
unfolding lines lines_below
lines_second true true = refl
lines_second true false = refl
lines_second false true = refl
lines_second false false = refl

lines-main :
    (a b : Bool) (f : Forks)
    → lines_below (forked a (first_child f) (forked b (second_child f) leaf))
      ≡ one_if a * (1 + one_if f.child3) + one_if b * (1 + (one_if f.child4 + one_if f.child5))
unfolding lines lines_below first_child second_child
lines-main true true f = omega (arith, lines_first f.child3, lines_second f.child4 f.child5)
lines-main true false f = omega (arith, lines_first f.child3)
lines-main false true f = omega (arith, lines_second f.child4 f.child5)
lines-main false false f = omega arith

-- Whichever calls of `fork` succeed, every process waits at least as often as it has children, and
-- one line is printed for each new process, of those whose parent was made.
pub main-IsAwaited :
    (f : Forks)
    → IsAwaited (main f)
      × (lines (main f)
          ≡ one_if f.child1 * (1 + one_if f.child3)
            + one_if f.child2 * (1 + (one_if f.child4 + one_if f.child5)))
unfolding IsAwaited children AreAwaited main lines
main-IsAwaited f = (
  (
    omega (
      arith,
      children-forked f.child1 (first_child f) (forked f.child2 (second_child f) leaf),
      children-forked f.child2 (second_child f) leaf,
    ),
    forked-AreAwaited f.child1 (first_child f) (forked f.child2 (second_child f) leaf)
        (first_child-IsAwaited f)
        (forked-AreAwaited f.child2 (second_child f) leaf (second_child-IsAwaited f) tt),
  ),
  omega (arith, lines-main f.child1 f.child2 f),
)
