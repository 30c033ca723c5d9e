-- ===== src/CancelScope/Settled.antt =====
-- Cancel statuses of trio/_core/_run.py that are settled, before and after a flag of a scope changes.
use trio.Prelude.{
  ℕ, ◌≡◌, refl, sym, ◌∙◌, Bool, true, false, Option, some, List, [], ◌∷◌, ◌==◌, ==_iff, mem,
  mem-append, arith,
}
use trio.Exec.{Exec}
use trio.Run.{Abort, Task, World}
use trio.CancelScope.{Tree, Flags, parent_is_cancelled}
use trio.CancelScope.Delivery.{IsDelivery, AllAt, AllQuiet}
use trio.CancelScope.Forest.{
  Forest, ids, Fits, AllApart, IsOutside, AllSettled, AllServed, empty, node,
}
use trio.CancelScope.Recalculate.{IsReady}

-- The two trees differ at most in the flags of the scope `i`.
pub record IsSameBut (i : ℕ) (a b : Tree) : Type 0 where
  pub children : (j : ℕ) → b.children j ≡ a.children j
  pub parent : (j : ℕ) → b.parent j ≡ a.parent j
  pub tasks : (j : ℕ) → b.tasks j ≡ a.tasks j
  pub cancel_status : (t : Task) → b.cancel_status t ≡ a.cancel_status t
  pub cancel_called : (j : ℕ) → (i == j) ≡ false → b.cancel_called j ≡ a.cancel_called j
  pub shield : (j : ℕ) → (i == j) ≡ false → b.shield j ≡ a.shield j

module _ (i : ℕ) (a b : Tree) (same : IsSameBut i a b) where
  AllAt-same : (j : ℕ) (ts : List Task) → AllAt a j ts → AllAt b j ts
  AllAt-same j [] h = tt
  AllAt-same j (t ∷ ts) (h, hs) = (same.cancel_status t ∙ h, AllAt-same j ts hs)

  Fits-same : (ts : Forest) (p : Option ℕ) → Fits a ts p → Fits b ts p
  Fits-same empty p f = tt
  Fits-same (node j kids rest) p f = (
    same.children j ∙ f.0,
    same.parent j ∙ f.1,
    rw (same.tasks j) (AllAt-same j (a.tasks j) f.2),
    Fits-same kids (some j) f.3,
    Fits-same rest p f.4,
  )

  AllServed-same :
      (effective : ℕ → Bool) (w : World) (ts : Forest)
      → AllServed a effective w ts
      → AllServed b effective w ts
  AllServed-same effective w empty s = tt
  AllServed-same effective w (node j kids rest) s = (
    (λ h. rw (same.tasks j) (s.0 h)),
    AllServed-same effective w kids s.1,
    AllServed-same effective w rest s.2,
  )

  AllSettled-same :
      (effective : ℕ → Bool) (ts : Forest) (above : Bool)
      → mem i (ids ts) ≡ false
      → AllSettled a effective ts above
      → AllSettled b effective ts above
  unfolding mem
  AllSettled-same effective empty above o s = tt
  AllSettled-same effective (node j kids rest) above o s =
      let differs : (i == j) ≡ false = ground (arith, o, ==_iff i j) in
      (
        s.0 ∙ rw (same.cancel_called j differs, same.shield j differs) refl,
        AllSettled-same effective kids (effective j)
            (ground (arith, o, mem-append i (ids kids) (ids rest))) s.1,
        AllSettled-same effective rest above (ground (arith, o, mem-append i (ids kids) (ids rest)))
            s.2,
      )

-- Every status that no shield parts from the one above is effectively cancelled, and none of its
-- tasks waits with an abort function.
abbrev pub AllReached : Tree → (ℕ → Bool) → World → Forest → Type 0
AllReached tree effective w empty = Unit {0}
AllReached tree effective w (node j kids rest) =
    (tree.shield j ≡ false
      → (effective j ≡ true) × AllQuiet w (tree.tasks j) × AllReached tree effective w kids)
    × AllReached tree effective w rest

pub AllSettled-AllReached :
    (tree : Tree) (effective : ℕ → Bool) (w : World) (ts : Forest)
    → AllSettled tree effective ts true
    → AllServed tree effective w ts
    → AllReached tree effective w ts
AllSettled-AllReached tree effective w empty s v = tt
AllSettled-AllReached tree effective w (node j kids rest) s v = (
  (λ open_.
      let on : effective j ≡ true = ground (arith, s.0, open_) in
      (on, v.0 on, AllSettled-AllReached tree effective w kids (rw (sym on) s.1) v.1)),
  AllSettled-AllReached tree effective w rest s.2 v.2,
)

-- A scope's status with those below it, settled, where nobody waits who has been cancelled.
pub record IsSettled (Good : World → Type 0) (tree : Tree) (p : Option ℕ) (i : ℕ) (kids : Forest)
    (f : Flags) : Type 0 where
  pub fits : Fits tree (node i kids empty) p
  pub apart : AllApart (node i kids empty)
  pub outside : IsOutside p (ids (node i kids empty))
  pub settled :
      AllSettled tree f.effectively_cancelled
        (node i kids empty)
        (parent_is_cancelled f.effectively_cancelled p)
  pub served : AllServed tree f.effectively_cancelled f.world (node i kids empty)
  pub good : Good f.world

module _ (abort_fn : Task → Exec World Abort) (Good : World → Type 0) (d : IsDelivery abort_fn Good)
    (p : Option ℕ) (i : ℕ) (kids : Forest) where
  pub changed-IsReady :
      (a b : Tree) (f : Flags)
      → IsSameBut i a b
      → IsSettled Good a p i kids f
      → IsReady abort_fn Good d b p (node i kids empty) f
  changed-IsReady a b f same s = record {
    fits = Fits-same i a b same (node i kids empty) p s.fits;
    apart = s.apart;
    outside = s.outside;
    inner = (
      AllSettled-same i a b same f.effectively_cancelled kids (f.effectively_cancelled i)
          (ground (arith, s.apart.0, mem-append i (ids kids) [])) s.settled.1,
      tt,
    );
    served = AllServed-same i a b same f.effectively_cancelled f.world (node i kids empty) s.served;
    good = s.good;
  }
