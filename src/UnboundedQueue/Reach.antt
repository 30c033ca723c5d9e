-- ===== src/UnboundedQueue/Reach.antt =====
-- Any history of an `UnboundedQueue` of trio/_core/_unbounded_queue.py: what is put and what is got,
-- with cancellations and steps of the rest of the program in between.
use trio.Prelude.{
  ℕ, ◌≡◌, refl, sym, ap, ◌∙◌, Bool, true, false, ◌&&◌, ◌||◌, Option, none, some, if◌then◌else◌,
  List, [], ◌∷◌, ◌++◌, inl, inr, arith, append_assoc, append-nil, mem, remove, nonempty, List-cases,
  Bool-cases,
}
use trio.Exec.{Result, ok, raise, cancelled, would_block}
use trio.Run.{Task, World, schedule, checkpoint_if_cancelled}
use trio.ParkingLot.{set_lot, park}
use trio.ParkingLot.Invariant.{IsSound, IsFree, schedule-IsSound, pop-IsSound, pop-IsFree}
use trio.ParkingLot.Steps.{park-IsSound, unpark_one, cancel_shielded_checkpoint-eq}
use trio.ParkingLot.Cancel.{attempt_abort-IsSound}
use trio.ParkingLot.Reach.{Step-IsSound}
use trio.ParkingLot.Reach
use trio.UnboundedQueue.{
  UnboundedQueue, put_nowait, announce, empty, get_batch_protected, get_batch_nowait, get_batch,
  cancel,
}

-- The queue, what has been put and what has been got so far, and the task that `put_nowait` has
-- scheduled and that has not taken its batch yet.
pub record Log (A : Type 0) : Type 0 where
  pub queue : UnboundedQueue A
  pub sent : List A
  pub received : List A
  pub handoff : Option Task

abbrev pub is_some : Option Task → Bool
is_some none = false
is_some (some t) = true

-- The task that waited longest, if the world `w` after `put_nowait` has it scheduled.
abbrev pub handed : List Task → World → Option Task → Option Task
handed ts w (some u) = some u
handed [] w none = none
handed (t ∷ ts) w none = if w.scheduled t then some t else none

no_task : (o : Option Task) → is_some o ≡ false → o ≡ none
no_task none h = refl
no_task (some t) h = cc

nobody_handed :
    (ts : List Task) (w : World) (o : Option Task)
    → (is_some o ≡ false → ts ≡ [])
    → handed ts w o ≡ o
nobody_handed ts w (some t) h = refl
nobody_handed ts w none h = rw (h refl) refl

module _ {A : Type 0} where
  abbrev pub waiters : UnboundedQueue A → List Task
  waiters s = s.world.lots s.lot

  abbrev pub batch_of : Result (List A) → List A
  batch_of (ok b) = b
  batch_of (raise e) = []

  abbrev pub returned : Result (Option (List A)) → List A
  returned (ok (some b)) = b
  returned (ok none) = []
  returned (raise e) = []

  abbrev pub put_log : A → Result (Unit {0}) → List A → List A
  put_log a (ok _) l = l ++ a ∷ []
  put_log a (raise e) l = l

  pub data Step (y : Log A) : Log A → Type 0 where
    puts :
        (obj : A)
        → Step y (record y {
          queue = (put_nowait obj y.queue).1;
          sent = put_log obj (put_nowait obj y.queue).0 y.sent;
          handoff = handed (waiters y.queue) (put_nowait obj y.queue).1.world y.handoff;
        })
    gets_nowait : Step y (record y {
      queue = (get_batch_nowait y.queue).1;
      received = y.received ++ batch_of (get_batch_nowait y.queue).0;
    })
    gets :
        (pending : Bool) (t : Task)
        → IsFree y.queue.world t
        → Step y (record y {
          queue = (get_batch pending t y.queue).1;
          received = y.received ++ returned (get_batch pending t y.queue).0;
        })
    takes :
        (t : Task)
        → y.handoff ≡ some t
        → Step y (record y {
          queue = (get_batch_protected y.queue).1;
          received = y.received ++ batch_of (get_batch_protected y.queue).0;
          handoff = none;
        })
    cancels :
        (t : Task)
        → mem t (waiters y.queue) ≡ true
        → Step y (record y { queue = (cancel t y.queue).1 })
    elsewhere :
        (w : World)
        → Reach.Step y.queue.world w
        → w.lots y.queue.lot ≡ waiters y.queue
        → Step y (record y { queue = record y.queue { world = w } })

  pub data History : Log A → Type 0 where
    begin :
        (w : World) (lot : ℕ)
        → IsSound w
        → w.lots lot ≡ []
        → History (record {
          queue = record { world = w; lot = lot; items = []; can_get = false };
          sent = [];
          received = [];
          handoff = none;
        })
    next : {y z : Log A} → History y → Step y z → History z

  -- There are objects exactly if they are promised: to the next caller, nobody waiting, or to one
  -- task that has been woken. Nothing is lost, repeated or reordered.
  pub record IsValid (y : Log A) : Type 0 where
    pub sound : IsSound y.queue.world
    pub promised : nonempty y.queue.items ≡ (y.queue.can_get || is_some y.handoff)
    pub once : (y.queue.can_get && is_some y.handoff) ≡ false
    pub open_to_all : y.queue.can_get ≡ true → waiters y.queue ≡ []
    pub in_order : y.received ++ y.queue.items ≡ y.sent

  module _ {y : Log A} (v : IsValid y) where
    open v use {sound, promised, once, open_to_all, in_order}

    module _ (obj : A) where
      more : UnboundedQueue A
      more = record y.queue { items = y.queue.items ++ obj ∷ [] }

      appended : y.received ++ (y.queue.items ++ obj ∷ []) ≡ y.sent ++ obj ∷ []
      appended =
          sym (append_assoc y.received y.queue.items (obj ∷ [])) ∙ ap (λ m. m ++ obj ∷ []) in_order

      put_more :
          (a : A) (l : List A) → y.queue.items ≡ a ∷ l → put_nowait obj y.queue ≡ (ok tt, more)
      unfolding put_nowait empty more
      put_more a l e = ground arith

      put_first :
          y.queue.items ≡ []
          → waiters y.queue ≡ []
          → put_nowait obj y.queue ≡ (ok tt, record more { can_get = true })
      unfolding put_nowait empty announce more
      put_first e w = ground arith

      put_handoff :
          (t : Task) (rest : List Task)
          → y.queue.items ≡ []
          → waiters y.queue ≡ t ∷ rest
          → put_nowait obj y.queue ≡ (
            ok tt,
            record more { world = schedule t (ok none) (set_lot y.queue.lot rest y.queue.world) },
          )
      unfolding put_nowait empty announce more
      put_handoff t rest e w = ground (arith, unpark_one sound y.queue.lot t rest w)

      nothing_promised : y.queue.items ≡ [] → is_some y.handoff ≡ false
      nothing_promised e = ground (arith, promised, ap nonempty e)

      kept :
          (a : A) (l : List A)
          → y.queue.items ≡ a ∷ l
          → is_some y.handoff ≡ false
          → waiters y.queue ≡ []
      kept a l e h = open_to_all (ground (arith, promised, ap nonempty e, h))

      put-IsValid : IsValid (record y {
        queue = (put_nowait obj y.queue).1;
        sent = put_log obj (put_nowait obj y.queue).0 y.sent;
        handoff = handed (waiters y.queue) (put_nowait obj y.queue).1.world y.handoff;
      })
      unfolding more
      put-IsValid = elim (List-cases y.queue.items) [
        | inr (a, l, e) ↦
            rw (put_more a l e, nobody_handed (waiters y.queue) more.world y.handoff (kept a l e))
              record {
                sound = sound;
                promised = ground arith;
                once = once;
                open_to_all = open_to_all;
                in_order = appended;
              }
        | inl e ↦ elim (List-cases (waiters y.queue)) [
          | inl w ↦
              rw (put_first e w, nobody_handed (waiters y.queue) more.world y.handoff (λ h. w))
                record {
                  sound = sound;
                  promised = ground arith;
                  once = nothing_promised e;
                  open_to_all = λ _. w;
                  in_order = appended;
                }
          | inr (t, rest, w) ↦
              rw (put_handoff t rest e w, w, no_task y.handoff (nothing_promised e))
                record {
                  sound =
                      schedule-IsSound (pop-IsSound sound y.queue.lot t rest w) t (ok none)
                        (pop-IsFree sound y.queue.lot t rest w);
                  promised = ground arith;
                  once = ground arith;
                  open_to_all = λ h. ground arith;
                  in_order = appended;
                }
        ]
      ]

    -- The batch goes to the caller, and the queue is empty.
    emptied : (w : World) → UnboundedQueue A
    emptied w = record y.queue { world = w; items = []; can_get = false }

    emptied-IsValid :
        (w : World)
        → IsSound w
        → IsValid (record {
          queue = emptied w;
          sent = y.sent;
          received = y.received ++ y.queue.items;
          handoff = none;
        })
    unfolding emptied
    emptied-IsValid w s = record {
      sound = s;
      promised = refl;
      once = refl;
      open_to_all = λ h. cc;
      in_order = append-nil _ ∙ in_order;
    }

    no_handoff : y.queue.can_get ≡ true → y.handoff ≡ none
    no_handoff h = no_task y.handoff (ground (arith, once))

    unchanged : IsValid (record y { received = y.received ++ [] })
    unchanged = rw append-nil v

    nowait_open :
        y.queue.can_get ≡ true
        → get_batch_nowait y.queue ≡ (ok y.queue.items, emptied y.queue.world)
    unfolding get_batch_nowait emptied
    nowait_open e = ground arith

    nowait_shut : y.queue.can_get ≡ false → get_batch_nowait y.queue ≡ (raise would_block, y.queue)
    unfolding get_batch_nowait
    nowait_shut e = ground arith

    gets_nowait-IsValid : IsValid (record y {
      queue = (get_batch_nowait y.queue).1;
      received = y.received ++ batch_of (get_batch_nowait y.queue).0;
    })
    gets_nowait-IsValid = elim (Bool-cases y.queue.can_get) [
      | inl e ↦ rw (nowait_open e, no_handoff e) (emptied-IsValid y.queue.world sound)
      | inr e ↦ rw (nowait_shut e) unchanged
    ]

    module _ (t : Task) (f : IsFree y.queue.world t) where
      get_open :
          y.queue.can_get ≡ true
          → get_batch false t y.queue
            ≡ (ok (some y.queue.items), emptied (schedule t (ok none) y.queue.world))
      unfolding get_batch checkpoint_if_cancelled emptied
      get_open e = ground (arith, cancel_shielded_checkpoint-eq y.queue.world t f)

      get_shut :
          y.queue.can_get ≡ false
          → get_batch false t y.queue
            ≡ (ok none, record y.queue { world = (park y.queue.lot t y.queue.world).1 })
      unfolding get_batch checkpoint_if_cancelled park
      get_shut e = ground arith

      gets-IsValid : IsValid (record y {
        queue = (get_batch false t y.queue).1;
        received = y.received ++ returned (get_batch false t y.queue).0;
      })
      unfolding park
      gets-IsValid = elim (Bool-cases y.queue.can_get) [
        | inl e ↦
            rw (get_open e, no_handoff e)
              (emptied-IsValid (schedule t (ok none) y.queue.world)
                (schedule-IsSound sound t (ok none) f))
        | inr e ↦ rw (get_shut e) (record {
          sound = park-IsSound y.queue.world y.queue.lot t sound f;
          promised = promised;
          once = once;
          open_to_all = λ h. cc;
          in_order = rw append-nil in_order;
        })
      ]

    get_cancelled : (t : Task) → get_batch true t y.queue ≡ (raise cancelled, y.queue)
    unfolding get_batch checkpoint_if_cancelled
    get_cancelled t = refl

    cancel-IsValid :
        (t : Task)
        → mem t (waiters y.queue) ≡ true
        → IsValid (record y { queue = (cancel t y.queue).1 })
    unfolding cancel mem remove
    cancel-IsValid t h = record {
      sound = attempt_abort-IsSound sound y.queue.lot t h;
      promised = promised;
      once = once;
      open_to_all = λ c. ground (arith, ap (mem t) (open_to_all c));
      in_order = in_order;
    }

  Step-IsValid : {y z : Log A} → Step y z → IsValid y → IsValid z
  unfolding get_batch_protected emptied
  Step-IsValid (puts obj) v = put-IsValid v obj
  Step-IsValid gets_nowait v = gets_nowait-IsValid v
  Step-IsValid (gets true t f) v = rw (get_cancelled v t) (unchanged v)
  Step-IsValid (gets false t f) v = gets-IsValid v t f
  Step-IsValid {y} (takes t h) v = emptied-IsValid v y.queue.world v.sound
  Step-IsValid (cancels t h) v = cancel-IsValid v t h
  Step-IsValid (elsewhere w st e) v = record {
    sound = Step-IsSound st v.sound;
    promised = v.promised;
    once = v.once;
    open_to_all = λ h. e ∙ v.open_to_all h;
    in_order = v.in_order;
  }

  -- In every history from an empty queue the batches got, followed by what is still queued, are
  -- the objects put, each once and in order; objects are queued exactly while they are open to the
  -- next caller, or are for one task that waited and that `put_nowait` has scheduled, so such a batch
  -- is never empty; and nobody waits beside a batch that is open to all.
  pub History-in_order : {y : Log A} → History y → IsValid y
  History-in_order (begin w lot s e) = record {
    sound = s;
    promised = refl;
    once = refl;
    open_to_all = λ _. e;
    in_order = refl;
  }
  History-in_order (next h st) = Step-IsValid st (History-in_order h)
