-- ===== src/Tests/Synchronisation.antt =====
-- Semaphores, on the machine.
use sustech_cs.Prelude.{
  ℕ, ◌+◌, ◌-◌, ◌≡◌, ◌≢◌, refl, true, false, ◌⊎◌, inl, some, [], arith, count, ◌==◌, if◌then◌else◌,
}
use sustech_cs.State.{Status, Kernel}
use sustech_cs.Threads.Queue.{IsValid, Highest, status_of}
use sustech_cs.Synch.{set_sema, sema_up, sema_down}
use sustech_cs.Synch.Wake.{Woken, sema_up_lem}
use sustech_cs.Synch.Down.{sema_down_lem}
use sustech_cs.Tests.Machine.{machine, machine-IsValid}

sema_up_example :
    (k' : Kernel) × (sema_up 0 machine ≡ some k')
    × IsValid k'
    × Highest k'
    × ((k'.sema 0).value ≡ 0 + 1)
    × (((machine.sema 0).waiters ≡ []) × ((k'.sema 0).waiters ≡ [])
        ⊎ ((t : ℕ) × Woken 0 t machine k'))
sema_up_example =
    sema_up_lem 0 machine machine-IsValid refl
      (λ t w. (ground (arith, w), λ e. ground (arith, w, e)))

abbrev interrupted : Kernel
interrupted = record machine { in_interrupt = true }

sema_down_example :
    ((machine.sema 0).value ≢ 0
      → sema_down 0 machine
        ≡ some (
          true,
          set_sema 0 (record (machine.sema 0) { value = (machine.sema 0).value - 1 }) machine,
        ))
    × ((machine.sema 0).value ≡ 0
        → (k' : Kernel) × (sema_down 0 machine ≡ some (false, k'))
          × IsValid k'
          × Highest k'
          × (status_of k' 0 ≡ Status.blocked)
          × ((k'.sema 0).value ≡ 0)
          × ((t : ℕ)
              → count t (k'.sema 0).waiters
                ≡ count t (machine.sema 0).waiters + (if 0 == t then 1 else 0)))
sema_down_example = sema_down_lem 0 machine machine-IsValid refl (λ e. ground (arith, e)) (inl refl)
