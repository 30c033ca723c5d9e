-- ===== src/CancelScope/Expiry/Count.antt =====
-- The number of registered deadlines that `Deadlines` of trio/_core/_run.py keeps in `_active`.
use trio.Prelude.{
  ℕ, suc, ◌≡◌, refl, sym, ap, ◌∙◌, Bool, true, false, not, ◌&&◌, ◌||◌, Option, none, some, List, [],
  ◌∷◌, ◌++◌, if◌then◌else◌, ◌==◌, ==_iff, ==_refl, length, mem, mem-remove, remove, Distinct,
  Distinct-remove, update, arith, Bool-cases, inl, inr,
}
use trio.Exec.{ok}
use trio.CancelScope.{Scopes, same_time, new_deadline, move_deadline, change_registered_deadline}
use trio.CancelScope.Expiry.{is_current, pruned, prune}

abbrev pub is_some : Option ℕ → Bool
is_some none = false
is_some (some t) = true

-- An entry of the scope that is not stale.
abbrev pub has_current : (ℕ → Option ℕ) → ℕ → List (ℕ × ℕ) → Bool
has_current registered j [] = false
has_current registered j (x ∷ xs) =
    ((x.1 == j) && is_current registered x) || has_current registered j xs

-- `_active` is the number of scopes with a registered deadline, and each has an entry in the heap that
-- is not stale.
pub record IsCounted (s : Scopes) : Type 0 where
  pub scopes : List ℕ
  pub distinct : Distinct scopes
  pub counted : length scopes ≡ s.deadlines.active
  pub registered : (j : ℕ) → mem j scopes ≡ is_some (s.registered_deadline j)
  pub entered :
      (j : ℕ)
      → is_some (s.registered_deadline j) ≡ true
      → has_current s.registered_deadline j s.deadlines.heap ≡ true

pub length-remove : (x : ℕ) (l : List ℕ) → mem x l ≡ true → suc (length (remove x l)) ≡ length l
unfolding mem remove
length-remove x [] m = cc
length-remove x (y ∷ ys) m = ground (arith, length-remove x ys)

-- Two lists without repetitions and with the same elements are equally long.
same_length :
    (xs ys : List ℕ)
    → Distinct xs
    → Distinct ys
    → ((j : ℕ) → mem j xs ≡ mem j ys)
    → length xs ≡ length ys
unfolding mem
same_length [] [] d e h = refl
same_length [] (y ∷ ys) d e h = ground (arith, h y)
same_length (x ∷ xs) ys (new, d) e h =
    let there : mem x ys ≡ true = ground (arith, h x) in
    ap suc (
      same_length xs (remove x ys) d (Distinct-remove x ys e)
        (λ j. ground (arith, new, h j, mem-remove j x ys e, ==_iff x j, there)))
    ∙ length-remove x ys there

scopes_of : List (ℕ × ℕ) → List ℕ
scopes_of [] = []
scopes_of (x ∷ xs) = x.1 ∷ scopes_of xs

length-scopes_of : (xs : List (ℕ × ℕ)) → length (scopes_of xs) ≡ length xs
unfolding scopes_of
length-scopes_of [] = refl
length-scopes_of (x ∷ xs) = ap suc (length-scopes_of xs)

same_time-some : (time : ℕ) (o : Option ℕ) → same_time (some time) o ≡ true → is_some o ≡ true
same_time-some time none h = cc h
same_time-some time (some t) h = refl

module _ (registered : ℕ → Option ℕ) where
  mem-pruned :
      (seen : List ℕ) (xs : List (ℕ × ℕ)) (j : ℕ)
      → mem j (scopes_of (pruned registered seen xs))
        ≡ (not (mem j seen) && has_current registered j xs)
  unfolding pruned mem scopes_of
  mem-pruned seen [] j = ground arith
  mem-pruned seen (x ∷ xs) j =
      ground (arith, mem-pruned seen xs j, mem-pruned (x.1 ∷ seen) xs j, ==_iff (x.1) j)

  Distinct-pruned :
      (seen : List ℕ) (xs : List (ℕ × ℕ)) → Distinct (scopes_of (pruned registered seen xs))
  unfolding pruned scopes_of mem
  Distinct-pruned seen [] = tt
  Distinct-pruned seen (x ∷ xs) = ground (
    arith,
    Distinct-pruned seen xs,
    Distinct-pruned (x.1 ∷ seen) xs,
    mem-pruned (x.1 ∷ seen) xs (x.1),
  )

  has_current-pruned :
      (seen : List ℕ) (xs : List (ℕ × ℕ)) (j : ℕ)
      → has_current registered j (pruned registered seen xs)
        ≡ (not (mem j seen) && has_current registered j xs)
  unfolding pruned mem
  has_current-pruned seen [] j = ground arith
  has_current-pruned seen (x ∷ xs) j =
      ground
        (arith, has_current-pruned seen xs j, has_current-pruned (x.1 ∷ seen) xs j, ==_iff (x.1) j)

  found :
      (time k j : ℕ)
      → (k == j) ≡ true
      → same_time (some time) (registered k) ≡ true
      → is_some (registered j) ≡ true
  found time k j same now = ground (arith, same_time-some time (registered k) now, ==_iff k j)

  has_current-some :
      (j : ℕ) (xs : List (ℕ × ℕ))
      → has_current registered j xs ≡ true
      → is_some (registered j) ≡ true
  has_current-some j [] h = cc
  has_current-some j ((time, k) ∷ xs) h =
      elim (Bool-cases ((k == j) && same_time (some time) (registered k))) [
        | inl here ↦ found time k j (ground (arith, here)) (ground (arith, here))
        | inr not_here ↦ has_current-some j xs (ground (arith, h, not_here))
      ]

  has_current-append :
      (j : ℕ) (xs ys : List (ℕ × ℕ))
      → has_current registered j (xs ++ ys)
        ≡ (has_current registered j xs || has_current registered j ys)
  has_current-append j [] ys = refl
  has_current-append j (x ∷ xs) ys = ground (arith, has_current-append j xs ys)

  -- Of another scope than the one that is registered anew.
  pub has_current-update :
      (i j : ℕ) (new : Option ℕ) (xs : List (ℕ × ℕ))
      → (i == j) ≡ false
      → has_current (update registered i new) j xs ≡ has_current registered j xs
  has_current-update i j new [] h = refl
  has_current-update i j new ((time, k) ∷ xs) h =
      ground (arith, has_current-update i j new xs h, ==_iff k j, ==_iff i k)

both_ways : (a b : Bool) → (a ≡ true → b ≡ true) → (b ≡ true → a ≡ true) → a ≡ b
both_ways true b f g = sym (f refl)
both_ways false true f g = g refl
both_ways false false f g = refl

-- Where `_active` is the number of registered deadlines and each of them has an entry in the heap,
-- `_prune` does not fail its assertion, whatever stale and doubled entries the heap has besides, and
-- afterwards this is so again, with exactly one entry for each scope.
pub prune-IsCounted :
    (s : Scopes)
    → IsCounted s
    → ((prune s).0 ≡ ok tt)
      × IsCounted (prune s).1
      × (length (prune s).1.deadlines.heap ≡ s.deadlines.active)
unfolding prune mem
prune-IsCounted s c =
    let heap = s.deadlines.heap in
    let reg = s.registered_deadline in
    let kept = pruned reg [] heap in
    let all : length kept ≡ s.deadlines.active =
      sym (length-scopes_of kept)
      ∙ same_length (scopes_of kept) c.scopes (Distinct-pruned reg [] heap) c.distinct (λ j.
        mem-pruned reg [] heap j
        ∙ both_ways (has_current reg j heap) (is_some (reg j)) (has_current-some reg j heap)
            (c.entered j)
        ∙ sym (c.registered j))
      ∙ c.counted in
    let passes : (length kept == s.deadlines.active) ≡ true = ground (arith, all) in
    (
      rw passes refl,
      rw passes (record {
        scopes = c.scopes;
        distinct = c.distinct;
        counted = c.counted;
        registered = c.registered;
        entered = λ j h. has_current-pruned reg [] heap j ∙ c.entered j h;
      }),
      rw passes all,
    )

module _ (i : ℕ) (s : Scopes) (c : IsCounted s) where
  others :
      (new : Option ℕ) (j : ℕ)
      → (i == j) ≡ false
      → is_some (update s.registered_deadline i new j) ≡ true
      → has_current (update s.registered_deadline i new) j s.deadlines.heap ≡ true
  others new j differs m =
      has_current-update s.registered_deadline i j new s.deadlines.heap differs
      ∙ c.entered j (ground (arith, m, differs))

  entered_new :
      (b j : ℕ)
      → is_some (update s.registered_deadline i (some b) j) ≡ true
      → has_current (update s.registered_deadline i (some b)) j (s.deadlines.heap ++ (b, i) ∷ [])
        ≡ true
  entered_new b j m =
      has_current-append (update s.registered_deadline i (some b)) j s.deadlines.heap ((b, i) ∷ [])
      ∙ elim (Bool-cases (i == j)) [
        | inl same ↦ ground (arith, same, ==_refl i, ==_refl b)
        | inr differs ↦ rw (others (some b) j differs m) refl
      ]

  entered_gone :
      (j : ℕ)
      → is_some (update s.registered_deadline i none j) ≡ true
      → has_current (update s.registered_deadline i none) j s.deadlines.heap ≡ true
  entered_gone j m = elim (Bool-cases (i == j)) [
    | inl same ↦ absurd (nothing j same m)
    | inr differs ↦ others none j differs m
  ]
    where
      nothing :
          (j : ℕ)
          → (i == j) ≡ true
          → is_some (if i == j then none else s.registered_deadline j) ≡ true
          → ⊥
      nothing j same m = ground (arith, same, m)

  register-IsCounted :
      (old new : Option ℕ)
      → s.registered_deadline i ≡ old
      → same_time old new ≡ false
      → IsCounted (record s {
        registered_deadline = update s.registered_deadline i new;
        deadlines = move_deadline old new i s.deadlines;
      })
  unfolding mem
  register-IsCounted none none e h = cc h
  register-IsCounted none (some b) e h = record {
    scopes = i ∷ c.scopes;
    distinct = (c.registered i ∙ ap is_some e, c.distinct);
    counted = omega (arith, c.counted);
    registered = λ j. ground (arith, c.registered j, ==_iff i j);
    entered = entered_new b;
  }
  register-IsCounted (some a) none e h = record {
    scopes = remove i c.scopes;
    distinct = Distinct-remove i c.scopes c.distinct;
    counted = omega (arith, c.counted, length-remove i c.scopes (c.registered i ∙ ap is_some e));
    registered =
        λ j. ground (arith, c.registered j, ==_iff i j, mem-remove j i c.scopes c.distinct);
    entered = entered_gone;
  }
  register-IsCounted (some a) (some b) e h = record {
    scopes = c.scopes;
    distinct = c.distinct;
    counted = omega (arith, c.counted, length-remove i c.scopes (c.registered i ∙ ap is_some e));
    registered = λ j. ground (arith, c.registered j, ==_iff i j, e);
    entered = entered_new b;
  }

  -- Whatever the deadline, cancellation or binding of a scope has become, bringing its registered
  -- deadline up to date keeps `_active` the number of registered deadlines, and an entry for each.
  pub change_registered_deadline-IsCounted : IsCounted (change_registered_deadline i s).1
  unfolding change_registered_deadline
  change_registered_deadline-IsCounted =
      elim (Bool-cases (same_time (s.registered_deadline i) (new_deadline i s))) [
        | inl same ↦ rw same c
        | inr differs ↦
            rw differs
              (register-IsCounted (s.registered_deadline i) (new_deadline i s) refl differs)
      ]
