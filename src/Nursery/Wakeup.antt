-- ===== src/Nursery/Wakeup.antt =====
-- The parent of a nursery of trio/_core/_run.py that waits for its children is woken by the last one.
use trio.Prelude.{ℕ, ◌≡◌, ◌⊎◌, true, false, none}
use trio.Exec.{ok}
use trio.Run.{schedule}
use trio.Nursery.{Nurseries, is_busy}

-- Of a nursery whose parent waits for it: it goes on waiting, the nursery being busy, or the nursery is
-- closed and the parent is scheduled, with no value.
abbrev pub IsAwaited : ℕ → Nurseries → Nurseries → Type 0
IsAwaited n s u =
    (((u.nurseries n).parent_waiting_in_aexit ≡ true)
      × ((u.nurseries n).closed ≡ false)
      × (is_busy (u.nurseries n) ≡ true)
      × (u.world ≡ s.world))
    ⊎ (((u.nurseries n).parent_waiting_in_aexit ≡ false)
        × ((u.nurseries n).closed ≡ true)
        × (u.world ≡ schedule (s.nurseries n).parent_task (ok none) s.world))
