-- ===== src/CancelScope/Expiry/Passing.antt =====
-- `Deadlines.expire` of trio/_core/_run.py, which cancels the scopes whose deadlines have passed.
use mathlib.Core.Path.{subst}
use trio.Prelude.{
  ℕ, zero, suc, ◌+◌, ◌*◌, ◌≡◌, refl, sym, ap, ◌∙◌, Bool, true, false, ◌||◌, Option, none, some,
  List, [], ◌∷◌, if◌then◌else◌, ◌==◌, ==_iff, ==_refl, leb, ltb, length, mem, mem-remove, remove,
  Distinct-remove, update, arith, Bool-cases, inl, inr,
}
use trio.Exec.{
  assertion_error, ensure, ensure-state, modify, Result, ◌>>=◌, ok, pure, ◌>>◌, Exec,
  continue_keeps,
}
use trio.Run.{Abort, Task, World}
use trio.CancelScope.{
  Scopes, Flags, same_time, register_deadline, change_registered_deadline, recalculate,
  recalculate_if_bound, cancel,
}
use trio.CancelScope.Expiry.{
  pruned, is_current, least, is_same, take_out, set_heap, prune, prune_threshold, cancel_current,
  expire_loop, expire,
}
use trio.CancelScope.Expiry.Count.{
  is_some, has_current, IsCounted, length-remove, has_current-update, prune-IsCounted,
}

-- And no scope that was cancelled has a registered deadline.
pub record IsTimed (s : Scopes) : Type 0 where
  pub count : IsCounted s
  pub live : (j : ℕ) → is_some (s.registered_deadline j) ≡ true → s.tree.cancel_called j ≡ false

module _ (registered : ℕ → Option ℕ) (j : ℕ) where
  take_out-other :
      (e : ℕ × ℕ) (xs : List (ℕ × ℕ))
      → (e.1 == j) ≡ false
      → has_current registered j (take_out e xs) ≡ has_current registered j xs
  take_out-other e [] h = refl
  take_out-other (a, i) ((b, k) ∷ xs) h =
      ground (arith, take_out-other (a, i) xs h, ==_iff k i, ==_iff k j, ==_iff i j)

  stale_twin :
      (a i b k : ℕ)
      → is_current registered (a, i) ≡ false
      → is_same (b, k) (a, i) ≡ true
      → is_current registered (b, k) ≡ false
  stale_twin a i b k h y =
      let p : b ≡ a = (==_iff b a).0 (ground (arith, y)) in
      let q : k ≡ i = (==_iff k i).0 (ground (arith, y)) in rw (p, q) h

  take_out-stale :
      (e : ℕ × ℕ) (xs : List (ℕ × ℕ))
      → is_current registered e ≡ false
      → has_current registered j (take_out e xs) ≡ has_current registered j xs
  take_out-stale e [] h = refl
  take_out-stale (a, i) ((b, k) ∷ xs) h = elim (Bool-cases (is_same (b, k) (a, i))) [
    | inr n ↦ rw n (rw (take_out-stale (a, i) xs h) refl)
    | inl y ↦ rw y (ground (arith, stale_twin a i b k h y))
  ]

flags-IsTimed : (s : Scopes) (f : Flags) → IsTimed s → IsTimed (record s { flags = f })
flags-IsTimed s f h = record {
  count = record {
    scopes = h.count.scopes;
    distinct = h.count.distinct;
    counted = h.count.counted;
    registered = h.count.registered;
    entered = h.count.entered;
  };
  live = h.live;
}

module _ (s : Scopes) (h : IsTimed s) (time i : ℕ) where
  abbrev without : Scopes
  without = set_heap (take_out (time, i) s.deadlines.heap) s

  abbrev called : Scopes
  called = record without {
    tree = record s.tree { cancel_called = update s.tree.cancel_called i true };
  }

  stale-IsTimed : same_time (some time) (s.registered_deadline i) ≡ false → IsTimed without
  stale-IsTimed n = record {
    count = record {
      scopes = h.count.scopes;
      distinct = h.count.distinct;
      counted = h.count.counted;
      registered = h.count.registered;
      entered = λ j m.
          take_out-stale s.registered_deadline j (time, i) s.deadlines.heap n ∙ h.count.entered j m;
    };
    live = h.live;
  }

  module _ (now : s.registered_deadline i ≡ some time) where
    others :
        (j : ℕ)
        → (i == j) ≡ false
        → is_some (s.registered_deadline j) ≡ true
        → has_current (update s.registered_deadline i none) j (take_out (time, i) s.deadlines.heap)
          ≡ true
    others j n m =
        has_current-update s.registered_deadline i j none (take_out (time, i) s.deadlines.heap) n
        ∙ take_out-other s.registered_deadline j (time, i) s.deadlines.heap n
        ∙ h.count.entered j m

    unregistered-IsTimed : IsTimed (register_deadline i none called)
    unfolding mem
    unregistered-IsTimed = rw now record {
      count = record {
        scopes = remove i h.count.scopes;
        distinct = Distinct-remove i h.count.scopes h.count.distinct;
        counted = omega (
          arith,
          h.count.counted,
          length-remove i h.count.scopes (h.count.registered i ∙ ap is_some now),
        );
        registered = λ j. ground (
          arith,
          h.count.registered j,
          ==_iff i j,
          mem-remove j i h.count.scopes h.count.distinct,
        );
        entered = λ j m. elim (Bool-cases (i == j)) [
          | inl e ↦ cc (rw e at m)
          | inr e ↦ others j e (rw e at m)
        ];
      };
      live = λ j m. elim (Bool-cases (i == j)) [
        | inl e ↦ cc (rw e at m)
        | inr e ↦ rw e (h.live j (rw e at m))
      ];
    }

same_time-eq : (time : ℕ) (o : Option ℕ) → same_time (some time) o ≡ true → o ≡ some time
same_time-eq time none k = cc
same_time-eq time (some t) k = ap some (sym ((==_iff time t).0 k))

module _ (abort_fn : Task → Exec World Abort) (rounds : ℕ) where
  recalculate-IsTimed :
      (i : ℕ) (s : Scopes) → IsTimed s → IsTimed (recalculate_if_bound abort_fn rounds i s).1
  unfolding recalculate
  recalculate-IsTimed i s h = elim (Bool-cases (s.is_bound i)) [
    | inl y ↦ rw y (flags-IsTimed s _ h)
    | inr n ↦ rw n h
  ]

  module _ (s : Scopes) (h : IsTimed s) (time i : ℕ) where
    registered_anew :
        s.registered_deadline i ≡ some time
        → change_registered_deadline i (called s h time i)
          ≡ (ok tt, register_deadline i none (called s h time i))
    unfolding change_registered_deadline
    registered_anew now = elim (Bool-cases (s.is_bound i)) [
      | inl y ↦ rw (==_refl i, now, y) refl
      | inr y ↦ rw (==_refl i, now, y) refl
    ]

    cancel-IsTimed :
        s.registered_deadline i ≡ some time
        → IsTimed (cancel abort_fn rounds i (without s h time i)).1
    unfolding cancel
    cancel-IsTimed now =
        rw (h.live i (ap is_some now), registered_anew now)
          (recalculate-IsTimed i (register_deadline i none (called s h time i))
            (unregistered-IsTimed s h time i now))

    -- A round of the loop.
    current-IsTimed : IsTimed (cancel_current abort_fn rounds (time, i) (without s h time i)).1
    current-IsTimed = elim (Bool-cases (same_time (some time) (s.registered_deadline i))) [
      | inr n ↦ rw n (stale-IsTimed s h time i n)
      | inl y ↦ rw y (
          continue_keeps IsTimed (cancel abort_fn rounds i (without s h time i)) _
            (cancel-IsTimed (same_time-eq time (s.registered_deadline i) y)) (λ x u k. k))
    ]

  -- The loop's body, given the heap.
  abbrev on_heap : ℕ → ℕ → Bool → Scopes → List (ℕ × ℕ) → Result Bool × Scopes
  on_heap fuel now did s [] = (ok did, s)
  on_heap fuel now did s (x ∷ xs) =
      (let top = least x xs in
        (if leb (top.0) now
            then (do
              modify (set_heap (take_out top (x ∷ xs)))
              found ← cancel_current abort_fn rounds top
              expire_loop abort_fn fuel rounds now (found || did))
            else pure did)
          s)

  expire_loop-eq :
      (fuel now : ℕ) (did : Bool) (s : Scopes)
      → expire_loop abort_fn (suc fuel) rounds now did s ≡ on_heap fuel now did s s.deadlines.heap
  unfolding expire_loop
  expire_loop-eq fuel now did s = refl

  same_heap-IsTimed :
      (s : Scopes) (l : List (ℕ × ℕ)) (top : ℕ × ℕ)
      → IsTimed s
      → s.deadlines.heap ≡ l
      → IsTimed (cancel_current abort_fn rounds top (set_heap (take_out top l) s)).1
  same_heap-IsTimed s l (time, i) h e =
      subst
        (λ m.
          IsTimed (cancel_current abort_fn rounds (time, i) (set_heap (take_out (time, i) m) s)).1)
        e (current-IsTimed s h time i)

  pub expire_loop-IsTimed :
      (fuel now : ℕ) (did : Bool) (s : Scopes)
      → IsTimed s
      → IsTimed (expire_loop abort_fn fuel rounds now did s).1
  unfolding expire_loop
  expire_loop-IsTimed zero now did s h = h
  expire_loop-IsTimed (suc fuel) now did s h =
      rw (expire_loop-eq fuel now did s)
        (on_heap-IsTimed (λ b u k. expire_loop-IsTimed fuel now b u k) s.deadlines.heap refl)
    where
      on_heap-IsTimed :
          ((b : Bool) (u : Scopes)
            → IsTimed u
            → IsTimed (expire_loop abort_fn fuel rounds now b u).1)
          → (l : List (ℕ × ℕ)) → s.deadlines.heap ≡ l
          → IsTimed (on_heap fuel now did s l).1
      on_heap-IsTimed again [] e = h
      on_heap-IsTimed again (x ∷ xs) e = elim (Bool-cases (leb ((least x xs).0) now)) [
        | inr n ↦ rw n h
        | inl y ↦ rw y (
            continue_keeps IsTimed
              (cancel_current abort_fn rounds (least x xs)
                (set_heap (take_out (least x xs) (x ∷ xs)) s))
              _ (same_heap-IsTimed s (x ∷ xs) (least x xs) h e)
              (λ found u k. again (found || did) u k))
      ]

  prune-IsTimed : (u : Scopes) → IsTimed u → IsTimed (prune u).1
  unfolding prune
  prune-IsTimed u h = record {
    count = (prune-IsCounted u h.count).1;
    live =
        continue_keeps
          (λ (v : Scopes).
            (j : ℕ) → is_some (v.registered_deadline j) ≡ true → v.tree.cancel_called j ≡ false)
          (ensure assertion_error
            (length (pruned u.registered_deadline [] u.deadlines.heap) == u.deadlines.active) u)
          _
          (rw
            (ensure-state assertion_error
              (length (pruned u.registered_deadline [] u.deadlines.heap) == u.deadlines.active) u)
            h.live)
          (λ x v k. k);
  }

  -- The end of `expire`.
  pruned-IsTimed :
      (u : Scopes) (did : Bool)
      → IsTimed u
      → IsTimed
          ((do
            (if ltb (u.deadlines.active * 2 + prune_threshold) (length u.deadlines.heap)
                then prune
                else pure tt)
            pure did)
            u).1
  unfolding prune
  pruned-IsTimed u did h =
      elim (Bool-cases (ltb (u.deadlines.active * 2 + prune_threshold) (length u.deadlines.heap))) [
        | inr n ↦ rw n h
        | inl y ↦ rw y (continue_keeps IsTimed (prune u) _ (prune-IsTimed u h) (λ x v k. k))
      ]

  -- Where `_active` is the number of registered deadlines, each of them has an entry in the heap, and no
  -- cancelled scope has one: in the state that the loop of `expire` leaves, whatever scopes it cancels and
  -- whatever abort functions do, `_prune` does not fail its assertion, and leaves exactly one entry for
  -- each registered deadline; and all this is so again after `expire`, whether it returns or raises.
  pub expire-IsTimed :
      (now : ℕ) (s : Scopes)
      → IsTimed s
      → let u = (expire_loop abort_fn (suc (length s.deadlines.heap)) rounds now false s).1 in
        ((prune u).0 ≡ ok tt)
        × (length (prune u).1.deadlines.heap ≡ u.deadlines.active)
        × IsTimed (expire abort_fn rounds now s).1
  unfolding expire
  expire-IsTimed now s h =
      let u = (expire_loop abort_fn (suc (length s.deadlines.heap)) rounds now false s).1 in
      let timed = expire_loop-IsTimed (suc (length s.deadlines.heap)) now false s h in
      let (passes, count, one_each) = prune-IsCounted u timed.count in
      (
        passes,
        one_each,
        continue_keeps IsTimed
            (expire_loop abort_fn (suc (length s.deadlines.heap)) rounds now false s) _ timed
            (λ did v k. pruned-IsTimed v did k),
      )
