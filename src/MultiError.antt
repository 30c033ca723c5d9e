-- ===== src/MultiError.antt =====
-- trio/_core/_multierror.py: `_filter_impl`, which applies a handler to the leaves of a tree of
-- exceptions, and the collapsing constructor of MultiError. Exceptions are objects with numbers;
-- `Objects` has their `__traceback__`, as a list of frames where None is the empty list, and their
-- `__context__`. The handler is a parameter: a function from an exception that is no MultiError to
-- another such exception, the same one, or None.
pub mod Leaves
mod Examples
use trio.Prelude.{
  ℕ, suc, ◌+◌, Bool, true, false, not, ◌||◌, Option, none, some, List, [], ◌∷◌, ◌++◌, if◌then◌else◌,
  ◌==◌, mem, update,
}

mutual
  pub data Exc : Type 0 where
    leaf : ℕ → Exc
    group : ℕ → Excs → Exc

  -- The `exceptions` of a MultiError.
  pub data Excs : Type 0 where
    nil : Excs
    cons : Exc → Excs → Excs

-- `fresh` is the number of the next object; `preserved` is the set of that name.
pub record Objects : Type 0 where
  pub traceback : ℕ → List ℕ
  pub context : ℕ → Option ℕ
  pub fresh : ℕ
  pub preserved : List ℕ

-- What `filter_tree` returns: its argument, None, or another exception.
pub data Filtered : Type 0 where
  same : Filtered
  gone : Filtered
  other : Exc → Filtered

-- `MultiError(exceptions)`, for a list that is not empty
abbrev pub multi_error : Exc → Excs → Objects → Filtered × Objects
multi_error e nil s = (other e, s)
multi_error e (cons f fs) s =
    (other (group s.fresh (cons e (cons f fs))), record s { fresh = s.fresh + 1 })

abbrev pub append_new : Filtered → Exc → Excs → Excs
append_new same e es = cons e es
append_new gone e es = es
append_new (other f) e es = cons f es

abbrev pub is_changed : Filtered → Bool
is_changed same = false
is_changed gone = true
is_changed (other f) = true

-- The handler's answer for the leaf `i`.
abbrev pub handled_leaf : ℕ → Option ℕ → Objects → Filtered × Objects
handled_leaf i none s = (gone, s)
handled_leaf i (some j) s =
    if i == j
    then (same, s)
    else (other (leaf j), record s { context = update s.context j (some i) })

-- What follows the loop over the exceptions of the group `i`.
abbrev pub finish : ℕ → Excs → Bool → Objects → Filtered × Objects
finish i nil changed s = (gone, s)
finish i (cons e es) true s = multi_error e es s
finish i (cons e es) false s = (same, record s { preserved = i ∷ s.preserved })

unfoldable mutual
  pub filter_tree : (ℕ → Option ℕ) → Exc → Objects → Filtered × Objects
  filter_tree handler (leaf i) s = handled_leaf i (handler i) s
  filter_tree handler (group i es) s =
      let r = filter_all handler es s in finish i (r.0.0) (r.0.1) (r.1)

  pub filter_all : (ℕ → Option ℕ) → Excs → Objects → (Excs × Bool) × Objects
  filter_all handler nil s = ((nil, false), s)
  filter_all handler (cons e es) s =
      let first = filter_tree handler e s in
      let rest = filter_all handler es (first.1) in
      ((append_new (first.0) e (rest.0.0), is_changed (first.0) || rest.0.1), rest.1)

abbrev pub concat_tb : List ℕ → List ℕ → List ℕ
concat_tb head tail = head ++ tail

abbrev pub set_traceback : ℕ → List ℕ → Objects → Objects
set_traceback i tb s = record s { traceback = update s.traceback i tb }

unfoldable mutual
  unfolding mem

  pub push_tb_down : List ℕ → Exc → Objects → Objects
  push_tb_down tb (leaf i) s =
      if mem i s.preserved then s else set_traceback i (concat_tb tb (s.traceback i)) s
  push_tb_down tb (group i es) s =
      let below = push_all_down (concat_tb tb (s.traceback i)) es s in
      if mem i s.preserved then s else set_traceback i [] below

  pub push_all_down : List ℕ → Excs → Objects → Objects
  push_all_down tb nil s = s
  push_all_down tb (cons e es) s = push_all_down tb es (push_tb_down tb e s)

abbrev pub new_root : Filtered → Exc → Option Exc
new_root same e = some e
new_root gone e = none
new_root (other f) e = some f

unfoldable pub filter_impl : (ℕ → Option ℕ) → Exc → Objects → Option Exc × Objects
unfolding filter_tree push_tb_down
filter_impl handler root_exc s =
    let r = filter_tree handler root_exc (record s { preserved = [] }) in
    (new_root (r.0) root_exc, push_tb_down [] root_exc (r.1))
