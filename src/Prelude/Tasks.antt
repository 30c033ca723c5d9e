-- ===== src/Prelude/Tasks.antt =====
-- Collections of tasks (a set, or the keys of an OrderedDict) as lists of numbers.
use Prim.Native.Nat.{ℕ}
use mathlib.Core.Path.{◌≡◌, refl}
use mathlib.Core.Bool.{Bool, true, false, not, ◌&&◌, ◌||◌}
use mathlib.Core.List.{List, [], ◌∷◌, ◌++◌}
use native.Mathlib.Omega.{arith}
use trio.Prelude.Lists.{take, drop, take-append-drop}
use trio.Prelude.Tests.{◌==◌, if◌then◌else◌}

-- `t in l`
unfoldable pub mem : ℕ → List ℕ → Bool
mem t [] = false
mem t (x ∷ xs) = x == t || mem t xs

-- `l[t] = ...`, or `l.add(t)`: a key that is there keeps its place, a new one goes last.
unfoldable pub insert_last : ℕ → List ℕ → List ℕ
insert_last t l = if mem t l then l else l ++ t ∷ []

-- `del l[t]`, where `t` is there.
unfoldable pub remove : ℕ → List ℕ → List ℕ
remove t [] = []
remove t (x ∷ xs) = if x == t then xs else x ∷ remove t xs

-- No task stands in the list twice.
abbrev pub Distinct : List ℕ → Type 0
Distinct [] = Unit {0}
Distinct (x ∷ xs) = (mem x xs ≡ false) × Distinct xs

pub mem-append : (t : ℕ) (xs ys : List ℕ) → mem t (xs ++ ys) ≡ (mem t xs || mem t ys)
unfolding mem
mem-append t [] ys = refl
mem-append t (x ∷ xs) ys = ground (arith, mem-append t xs ys)

pub mem-insert_last : (s t : ℕ) (l : List ℕ) → mem s (insert_last t l) ≡ (t == s || mem s l)
unfolding insert_last mem
mem-insert_last s t l = ground (arith, mem-append s l (t ∷ []))

pub insert_last_new : (t : ℕ) (l : List ℕ) → mem t l ≡ false → insert_last t l ≡ l ++ t ∷ []
unfolding insert_last
insert_last_new t l h = rw h

-- A removed task is gone, and no other is.
pub mem-remove :
    (s t : ℕ) (l : List ℕ) → Distinct l → mem s (remove t l) ≡ (not (t == s) && mem s l)
unfolding mem remove
mem-remove s t [] d = ground arith
mem-remove s t (x ∷ xs) (new, d) = ground (arith, mem-remove s t xs d)

pub remove_absent : (t : ℕ) (l : List ℕ) → mem t l ≡ false → remove t l ≡ l
unfolding mem remove
remove_absent t [] h = refl
remove_absent t (x ∷ xs) h = ground (arith, remove_absent t xs)

pub Distinct-remove : (t : ℕ) (l : List ℕ) → Distinct l → Distinct (remove t l)
unfolding remove
Distinct-remove t [] d = tt
Distinct-remove t (x ∷ xs) (new, d) = ground (arith, Distinct-remove t xs d, mem-remove x t xs d)

pub Distinct-snoc : (l : List ℕ) (t : ℕ) → Distinct l → mem t l ≡ false → Distinct (l ++ t ∷ [])
unfolding mem
Distinct-snoc [] t d h = (refl, tt)
Distinct-snoc (x ∷ xs) t (new, d) h = ground (arith, Distinct-snoc xs t d, mem-append x xs (t ∷ []))

pub Distinct-insert_last : (t : ℕ) (l : List ℕ) → Distinct l → Distinct (insert_last t l)
unfolding insert_last
Distinct-insert_last t l d = ground (arith, Distinct-snoc l t d)

pub remove-snoc : (t : ℕ) (l : List ℕ) → mem t l ≡ false → remove t (l ++ t ∷ []) ≡ l
unfolding mem remove
remove-snoc t [] h = ground arith
remove-snoc t (x ∷ xs) h = ground (arith, remove-snoc t xs)

-- A list without repetition falls into two such parts with no task in common.
pub Distinct-append_left : (xs ys : List ℕ) → Distinct (xs ++ ys) → Distinct xs
Distinct-append_left [] ys d = tt
Distinct-append_left (x ∷ xs) ys (new, d) =
    ground (arith, Distinct-append_left xs ys d, mem-append x xs ys)

pub Distinct-append_right : (xs ys : List ℕ) → Distinct (xs ++ ys) → Distinct ys
Distinct-append_right [] ys d = d
Distinct-append_right (x ∷ xs) ys (new, d) = Distinct-append_right xs ys d

pub Distinct-disjoint :
    (t : ℕ) (xs ys : List ℕ) → Distinct (xs ++ ys) → mem t xs ≡ true → mem t ys ≡ false
unfolding mem
Distinct-disjoint t [] ys d h = cc
Distinct-disjoint t (x ∷ xs) ys (new, d) h =
    ground (arith, Distinct-disjoint t xs ys d, mem-append x xs ys)

module _ (n : ℕ) (xs : List ℕ) (d : Distinct xs) where
  parts : Distinct (take n xs ++ drop n xs)
  parts = rw (take-append-drop n xs) d

  pub Distinct-take : Distinct (take n xs)
  Distinct-take = Distinct-append_left (take n xs) (drop n xs) parts

  pub Distinct-drop : Distinct (drop n xs)
  Distinct-drop = Distinct-append_right (take n xs) (drop n xs) parts

  pub mem-drop_of_mem-take : (t : ℕ) → mem t (take n xs) ≡ true → mem t (drop n xs) ≡ false
  mem-drop_of_mem-take t = Distinct-disjoint t (take n xs) (drop n xs) parts

module _ (n : ℕ) (xs : List ℕ) (t : ℕ) where
  pub mem_of_mem-take : mem t (take n xs) ≡ true → mem t xs ≡ true
  mem_of_mem-take h =
      rw (← take-append-drop n xs) (ground (arith, mem-append t (take n xs) (drop n xs)))

  pub mem_of_mem-drop : mem t (drop n xs) ≡ true → mem t xs ≡ true
  mem_of_mem-drop h =
      rw (← take-append-drop n xs) (ground (arith, mem-append t (take n xs) (drop n xs)))

pub Distinct-middle : (t : ℕ) (xs ys : List ℕ) → Distinct (xs ++ t ∷ ys) → mem t xs ≡ false
unfolding mem
Distinct-middle t [] ys d = refl
Distinct-middle t (x ∷ xs) ys (new, d) =
    ground (arith, Distinct-middle t xs ys d, mem-append x xs (t ∷ ys))
