-- ===== src/MultiError/Leaves.antt =====
-- The leaves of a filtered tree of exceptions (trio/_core/_multierror.py).
use trio.Prelude.{
  ℕ, ◌≡◌, refl, sym, ap, ◌∙◌, Bool, true, false, ◌||◌, Option, none, some, List, [], ◌∷◌, ◌++◌,
  append-nil, append_assoc, ◌==◌, ==_iff, arith, Bool-cases, inl, inr,
}
use trio.MultiError.{
  Exc, Excs, leaf, group, nil, cons, Objects, Filtered, same, gone, other, multi_error, append_new,
  is_changed, handled_leaf, finish, filter_tree, filter_all, new_root, filter_impl,
}

unfoldable mutual
  pub leaves : Exc → List ℕ
  leaves (leaf i) = i ∷ []
  leaves (group i es) = all_leaves es

  pub all_leaves : Excs → List ℕ
  all_leaves nil = []
  all_leaves (cons e es) = leaves e ++ all_leaves es

abbrev pub root_leaves : Option Exc → List ℕ
root_leaves none = []
root_leaves (some e) = leaves e

abbrev pub answer : Option ℕ → List ℕ
answer none = []
answer (some j) = j ∷ []

-- The handler, on each exception of a list.
unfoldable pub answers : (ℕ → Option ℕ) → List ℕ → List ℕ
answers handler [] = []
answers handler (i ∷ is) = answer (handler i) ++ answers handler is

answers-append :
    (h : ℕ → Option ℕ) (xs ys : List ℕ) → answers h (xs ++ ys) ≡ answers h xs ++ answers h ys
unfolding answers
answers-append h [] ys = refl
answers-append h (x ∷ xs) ys =
    rw (answers-append h xs ys) (sym (append_assoc (answer (h x)) (answers h xs) (answers h ys)))

leaves-append_new :
    (f : Filtered) (e : Exc) (es : Excs)
    → all_leaves (append_new f e es) ≡ root_leaves (new_root f e) ++ all_leaves es
unfolding leaves
leaves-append_new same e es = refl
leaves-append_new gone e es = refl
leaves-append_new (other f) e es = refl

leaves-handled_leaf :
    (i : ℕ) (o : Option ℕ) (s : Objects)
    → root_leaves (new_root (handled_leaf i o s).0 (leaf i)) ≡ answer o ++ []
unfolding leaves
leaves-handled_leaf i none s = refl
leaves-handled_leaf i (some j) s = elim (Bool-cases (i == j)) [
  | inl h ↦ rw h (ap (λ k. k ∷ []) (ground (arith, h, ==_iff i j)))
  | inr h ↦ rw h refl
]

leaves-multi_error :
    (e : Exc) (es : Excs) (s : Objects) (f : Exc)
    → root_leaves (new_root (multi_error e es s).0 f) ≡ all_leaves (cons e es)
unfolding leaves
leaves-multi_error e nil s f = sym (append-nil (leaves e))
leaves-multi_error e (cons g gs) s f = refl

-- Where nothing has changed, the new list is the old one.
leaves-finish :
    (i : ℕ) (es new : Excs) (changed : Bool) (s : Objects)
    → (changed ≡ false → new ≡ es)
    → root_leaves (new_root (finish i new changed s).0 (group i es)) ≡ all_leaves new
unfolding leaves
leaves-finish i es nil changed s h = refl
leaves-finish i es (cons e more) true s h = leaves-multi_error e more s (group i es)
leaves-finish i es (cons e more) false s h = ap all_leaves (sym (h refl))

unchanged-append_new :
    (f : Filtered) (e : Exc) (es new : Excs) (rest : Bool)
    → (rest ≡ false → new ≡ es)
    → (is_changed f || rest) ≡ false
    → append_new f e new ≡ cons e es
unchanged-append_new same e es new rest h c = ap (cons e) (h c)
unchanged-append_new gone e es new rest h c = cc c
unchanged-append_new (other f) e es new rest h c = cc c

module _ (h : ℕ → Option ℕ) where
  filter_all-unchanged :
      (es : Excs) (s : Objects) → (filter_all h es s).0.1 ≡ false → (filter_all h es s).0.0 ≡ es
  unfolding filter_tree
  filter_all-unchanged nil s c = refl
  filter_all-unchanged (cons e es) s c =
      let first = filter_tree h e s in
      let rest = filter_all h es (first.1) in
      unchanged-append_new (first.0) e es (rest.0.0) (rest.0.1) (filter_all-unchanged es (first.1))
        c

  mutual
    unfolding filter_tree leaves answers

    filter_tree-leaves :
        (e : Exc) (s : Objects)
        → root_leaves (new_root (filter_tree h e s).0 e) ≡ answers h (leaves e)
    filter_tree-leaves (leaf i) s = leaves-handled_leaf i (h i) s
    filter_tree-leaves (group i es) s =
        leaves-finish i es _ _ _ (filter_all-unchanged es s) ∙ filter_all-leaves es s

    filter_all-leaves :
        (es : Excs) (s : Objects) → all_leaves (filter_all h es s).0.0 ≡ answers h (all_leaves es)
    filter_all-leaves nil s = refl
    filter_all-leaves (cons e es) s =
        let first = filter_tree h e s in
        leaves-append_new (first.0) e _
        ∙ ap (λ l. l ++ all_leaves (filter_all h es (first.1)).0.0) (filter_tree-leaves e s)
        ∙ ap (λ l. answers h (leaves e) ++ l) (filter_all-leaves es (first.1))
        ∙ sym (answers-append h (leaves e) (all_leaves es))

-- No group is empty or has just one exception.
abbrev pub IsMany : Excs → Type 0
IsMany nil = ⊥
IsMany (cons e nil) = ⊥
IsMany (cons e (cons f fs)) = Unit {0}

unfoldable mutual
  pub IsSimple : Exc → Type 0
  IsSimple (leaf i) = Unit {0}
  IsSimple (group i es) = IsMany es × AllSimple es

  pub AllSimple : Excs → Type 0
  AllSimple nil = Unit {0}
  AllSimple (cons e es) = IsSimple e × AllSimple es

abbrev pub RootSimple : Option Exc → Type 0
RootSimple none = Unit {0}
RootSimple (some e) = IsSimple e

AllSimple-append_new :
    (f : Filtered) (e : Exc) (es : Excs)
    → RootSimple (new_root f e)
    → AllSimple es
    → AllSimple (append_new f e es)
unfolding IsSimple
AllSimple-append_new same e es v vs = (v, vs)
AllSimple-append_new gone e es v vs = vs
AllSimple-append_new (other f) e es v vs = (v, vs)

finish-IsSimple :
    (i : ℕ) (es new : Excs) (changed : Bool) (s : Objects)
    → IsSimple (group i es)
    → AllSimple new
    → RootSimple (new_root (finish i new changed s).0 (group i es))
unfolding IsSimple
finish-IsSimple i es nil changed s v vs = tt
finish-IsSimple i es (cons e nil) true s v (w, ws) = w
finish-IsSimple i es (cons e (cons f fs)) true s v vs = (tt, vs)
finish-IsSimple i es (cons e more) false s v vs = v

handled_leaf-IsSimple :
    (i : ℕ) (o : Option ℕ) (s : Objects) → RootSimple (new_root (handled_leaf i o s).0 (leaf i))
unfolding IsSimple
handled_leaf-IsSimple i none s = tt
handled_leaf-IsSimple i (some j) s = elim (Bool-cases (i == j)) [
  | inl h ↦ rw h tt
  | inr h ↦ rw h tt
]

module _ (h : ℕ → Option ℕ) where
  mutual
    unfolding filter_tree IsSimple

    filter_tree-IsSimple :
        (e : Exc) (s : Objects) → IsSimple e → RootSimple (new_root (filter_tree h e s).0 e)
    filter_tree-IsSimple (leaf i) s v = handled_leaf-IsSimple i (h i) s
    filter_tree-IsSimple (group i es) s v =
        finish-IsSimple i es (filter_all h es s).0.0 (filter_all h es s).0.1 (filter_all h es s).1 v
          (filter_all-IsSimple es s v.1)

    filter_all-IsSimple :
        (es : Excs) (s : Objects) → AllSimple es → AllSimple (filter_all h es s).0.0
    filter_all-IsSimple nil s v = tt
    filter_all-IsSimple (cons e es) s (v, vs) =
        let first = filter_tree h e s in
        AllSimple-append_new (first.0) e _ (filter_tree-IsSimple e s v)
          (filter_all-IsSimple es (first.1) vs)

  -- The leaves of the exception that `_filter_impl` returns are the handler's answers for the leaves
  -- of its argument, in order and without those for which the answer was None; and where the argument
  -- has no empty group and no group of one exception, neither has the result.
  pub filter_impl-leaves :
      (root_exc : Exc) (s : Objects)
      → IsSimple root_exc
      → (root_leaves (filter_impl h root_exc s).0 ≡ answers h (leaves root_exc))
        × RootSimple (filter_impl h root_exc s).0
  unfolding filter_impl
  filter_impl-leaves e s v = (
    filter_tree-leaves h e (record s { preserved = [] }),
    filter_tree-IsSimple e (record s { preserved = [] }) v,
  )
