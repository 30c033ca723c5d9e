-- ===== src/MultiError/Examples.antt =====
-- A tree of exceptions for trio/_core/_multierror.py: tests, and an instance of the theorem.
use trio.Prelude.{ℕ, ◌≡◌, refl, Option, none, some, [], ◌∷◌, if◌then◌else◌, ◌==◌, mem}
use trio.MultiError.{Exc, leaf, group, nil, cons, Objects, filter_tree, push_tb_down, filter_impl}
use trio.MultiError.Leaves.{leaves, answers, root_leaves, IsSimple, RootSimple, filter_impl-leaves}

-- A group of a group and a leaf; each exception `i` has the one frame 10 * i.
abbrev tree : Exc
tree = group 1 (cons (group 2 (cons (leaf 3) (cons (leaf 4) nil))) (cons (leaf 5) nil))

abbrev objects : Objects
objects = record {
  traceback = λ i.
      (if i == 1
        then 10 ∷ []
        else if i == 2
        then 20 ∷ []
        else if i == 3
        then 30 ∷ []
        else if i == 4
        then 40 ∷ []
        else 50 ∷ []);
  context = λ _. none;
  fresh = 6;
  preserved = [];
}

-- The handler catches the leaf 5.
abbrev catch_last : ℕ → Option ℕ
catch_last i = if i == 5 then none else some i

-- The inner group is returned as it was.
inner_returned :
    (filter_impl catch_last tree objects).0 ≡ some (group 2 (cons (leaf 3) (cons (leaf 4) nil)))
unfolding filter_impl filter_tree
inner_returned = refl

-- Its traceback has not got the frame of the outer group.
frame_lost : (filter_impl catch_last tree objects).1.traceback 2 ≡ 20 ∷ []
unfolding filter_impl filter_tree push_tb_down mem
frame_lost = refl

frames_of_leaf : (filter_impl catch_last tree objects).1.traceback 3 ≡ 30 ∷ []
unfolding filter_impl filter_tree push_tb_down mem
frames_of_leaf = refl

-- The caught leaf has.
frame_kept : (filter_impl catch_last tree objects).1.traceback 5 ≡ 10 ∷ 50 ∷ []
unfolding filter_impl filter_tree push_tb_down mem
frame_kept = refl

tree-IsSimple : IsSimple tree
unfolding IsSimple
tree-IsSimple = (tt, ((tt, (tt, (tt, tt))), (tt, tt)))

filter_impl-leaves_example :
    (root_leaves (filter_impl catch_last tree objects).0 ≡ answers catch_last (leaves tree))
    × RootSimple (filter_impl catch_last tree objects).0
filter_impl-leaves_example = filter_impl-leaves catch_last tree objects tree-IsSimple
