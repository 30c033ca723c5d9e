-- ===== src/CancelScope/Forest.antt =====
-- Trees of cancel statuses (trio/_core/_run.py), and when their flags are right.
use trio.Prelude.{
  ℕ, suc, ◌+◌, ◌≡◌, refl, sym, ◌∙◌, Bool, true, false, not, ◌&&◌, ◌||◌, Option, none, some, List,
  [], ◌∷◌, ◌++◌, mem, mem-append, arith,
}
use trio.Run.{World}
use trio.CancelScope.{Tree, parent_is_cancelled, bool_eq}
use trio.CancelScope.Delivery.{Calms, AllAt, AllQuiet, AllQuiet-Calms}

-- Statuses side by side under one parent, each with those below it.
pub data Forest : Type 0 where
  empty : Forest
  node : ℕ → Forest → Forest → Forest

abbrev pub roots : Forest → List ℕ
roots empty = []
roots (node i kids rest) = i ∷ roots rest

abbrev pub ids : Forest → List ℕ
ids empty = []
ids (node i kids rest) = i ∷ (ids kids ++ ids rest)

abbrev pub size : Forest → ℕ
size empty = 0
size (node i kids rest) = suc (size kids + size rest)

-- The tree of the program has this shape below `p`.
abbrev pub Fits : Tree → Forest → Option ℕ → Type 0
Fits tree empty p = Unit {0}
Fits tree (node i kids rest) p =
    (tree.children i ≡ roots kids)
    × (tree.parent i ≡ p)
    × AllAt tree i (tree.tasks i)
    × Fits tree kids (some i)
    × Fits tree rest p

abbrev pub Disjoint : List ℕ → List ℕ → Type 0
Disjoint xs ys = (j : ℕ) → mem j xs ≡ true → mem j ys ≡ false

-- No status stands there twice.
abbrev pub AllApart : Forest → Type 0
AllApart empty = Unit {0}
AllApart (node i kids rest) =
    (mem i (ids kids ++ ids rest) ≡ false)
    × Disjoint (ids kids) (ids rest)
    × AllApart kids
    × AllApart rest

abbrev pub IsOutside : Option ℕ → List ℕ → Type 0
IsOutside none xs = Unit {0}
IsOutside (some p) xs = mem p xs ≡ false

-- Each status is effectively cancelled exactly if its scope is cancelled, or it has no shield and its
-- parent is effectively cancelled; `above` is the parent's value.
abbrev pub AllSettled : Tree → (ℕ → Bool) → Forest → Bool → Type 0
AllSettled tree effective empty above = Unit {0}
AllSettled tree effective (node i kids rest) above =
    (effective i ≡ (tree.cancel_called i || (not (tree.shield i) && above)))
    × AllSettled tree effective kids (effective i)
    × AllSettled tree effective rest above

-- The same but for the topmost ones.
abbrev pub InnerSettled : Tree → (ℕ → Bool) → Forest → Type 0
InnerSettled tree effective empty = Unit {0}
InnerSettled tree effective (node i kids rest) =
    AllSettled tree effective kids (effective i) × InnerSettled tree effective rest

-- No task of an effectively cancelled status waits with an abort function.
abbrev pub AllServed : Tree → (ℕ → Bool) → World → Forest → Type 0
AllServed tree effective w empty = Unit {0}
AllServed tree effective w (node i kids rest) =
    (effective i ≡ true → AllQuiet w (tree.tasks i))
    × AllServed tree effective w kids
    × AllServed tree effective w rest

-- The two agree on the forest; and everywhere but in the list.
abbrev pub Agree : (ℕ → Bool) → (ℕ → Bool) → Forest → Type 0
Agree e e' ts = (j : ℕ) → mem j (ids ts) ≡ true → e' j ≡ e j

abbrev pub Keeps : (ℕ → Bool) → (ℕ → Bool) → List ℕ → Type 0
Keeps e e' xs = (j : ℕ) → mem j xs ≡ false → e' j ≡ e j

module _ {e e' : ℕ → Bool} (i : ℕ) (kids rest : Forest) (a : Agree e e' (node i kids rest)) where
  at_root : e' i ≡ e i
  unfolding mem
  at_root = a i (ground arith)

  in_kids : Agree e e' kids
  unfolding mem
  in_kids j m = a j (ground (arith, mem-append j (ids kids) (ids rest)))

  in_rest : Agree e e' rest
  unfolding mem
  in_rest j m = a j (ground (arith, mem-append j (ids kids) (ids rest)))

module _ (tree : Tree) {e e' : ℕ → Bool} where
  pub AllSettled-Agree :
      (ts : Forest) (above : Bool)
      → Agree e e' ts
      → AllSettled tree e ts above
      → AllSettled tree e' ts above
  AllSettled-Agree empty above a s = tt
  AllSettled-Agree (node i kids rest) above a (s, below, beside) = (
    at_root i kids rest a ∙ s,
    rw (at_root i kids rest a) (AllSettled-Agree kids (e i) (in_kids i kids rest a) below),
    AllSettled-Agree rest above (in_rest i kids rest a) beside,
  )

  pub InnerSettled-Agree :
      (ts : Forest) → Agree e e' ts → InnerSettled tree e ts → InnerSettled tree e' ts
  InnerSettled-Agree empty a s = tt
  InnerSettled-Agree (node i kids rest) a (below, beside) = (
    rw (at_root i kids rest a) (AllSettled-Agree kids (e i) (in_kids i kids rest a) below),
    InnerSettled-Agree rest (in_rest i kids rest a) beside,
  )

  pub AllServed-Agree :
      (w v : World) (ts : Forest)
      → Agree e e' ts
      → Calms w v
      → AllServed tree e w ts
      → AllServed tree e' v ts
  AllServed-Agree w v empty a c s = tt
  AllServed-Agree w v (node i kids rest) a c (s, below, beside) = (
    (λ h. AllQuiet-Calms (tree.tasks i) w v c (s (sym (at_root i kids rest a) ∙ h))),
    AllServed-Agree w v kids (in_kids i kids rest a) c below,
    AllServed-Agree w v rest (in_rest i kids rest a) c beside,
  )

pub AllSettled-InnerSettled :
    (tree : Tree) (e : ℕ → Bool) (ts : Forest) (above : Bool)
    → AllSettled tree e ts above
    → InnerSettled tree e ts
AllSettled-InnerSettled tree e empty above s = tt
AllSettled-InnerSettled tree e (node i kids rest) above (s, below, beside) =
    (below, AllSettled-InnerSettled tree e rest above beside)

pub bool_eq_sound : (a b : Bool) → bool_eq a b ≡ true → b ≡ a
bool_eq_sound true b h = h
bool_eq_sound false true h = cc
bool_eq_sound false false h = refl

pub parent_same :
    {e e' : ℕ → Bool} (xs : List ℕ) (p : Option ℕ)
    → Keeps e e' xs
    → IsOutside p xs
    → parent_is_cancelled e' p ≡ parent_is_cancelled e p
parent_same xs none k o = refl
parent_same xs (some p) k o = k p o

pub IsOutside-first :
    (p : Option ℕ) (i : ℕ) (kids rest : Forest)
    → IsOutside p (ids (node i kids rest))
    → IsOutside p (ids (node i kids empty))
unfolding mem
IsOutside-first none i kids rest o = tt
IsOutside-first (some p) i kids rest o =
    ground (arith, mem-append p (ids kids) [], mem-append p (ids kids) (ids rest))

pub IsOutside-rest :
    (p : Option ℕ) (i : ℕ) (kids rest : Forest)
    → IsOutside p (ids (node i kids rest))
    → IsOutside p (ids rest)
unfolding mem
IsOutside-rest none i kids rest o = tt
IsOutside-rest (some p) i kids rest o = ground (arith, mem-append p (ids kids) (ids rest))
