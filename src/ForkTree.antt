-- ===== src/ForkTree.antt =====
-- The tree of processes of les13_fork/src/ierarchy.c. Whether each `fork` succeeds is an argument; one
-- that fails returns -1 and goes the way of the parent.
pub mod Waits
mod Examples
use summer_school.Base.{
  ℕ, zero, suc, ◌+◌, ◌-◌, Bool, true, false, if◌then◌else◌, List, [], ◌∷◌, ◌++◌,
}

-- A process: how many lines it prints, how often it calls `wait`, and the processes that it forks.
mutual
  pub data Tree : Type 0 where
    node : (lines waits : ℕ) → Forest → Tree

  pub data Forest : Type 0 where
    leaf : Forest
    also : Tree → Forest → Forest

-- Which of the five calls of `fork` succeed, by the variable that they assign.
pub record Forks : Type 0 where
  pub child1 : Bool
  pub child2 : Bool
  pub child3 : Bool
  pub child4 : Bool
  pub child5 : Bool

-- A child that prints its line and exits.
abbrev pub greeter : Tree
greeter = node 1 0 leaf

-- `fork()`, with the new process and the rest of the parent's.
abbrev pub forked : Bool → Tree → Forest → Forest
forked ok t rest = if ok then also t rest else rest

-- The `case 0` of `child1`, and the five calls of `wait` behind the `switch`.
pub first_child : Forks → Tree
first_child f = node 1 5 (forked f.child3 greeter leaf)

-- The `case 0` of `child2`.
pub second_child : Forks → Tree
second_child f = node 1 5 (forked f.child4 greeter (forked f.child5 greeter leaf))

-- `main`
pub main : Forks → Tree
main f = node 0 5 (forked f.child1 (first_child f) (forked f.child2 (second_child f) leaf))
