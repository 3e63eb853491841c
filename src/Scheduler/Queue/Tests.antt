-- ===== src/Scheduler/Queue/Tests.antt =====
-- The theorems on queue.c at the queue 8, 5 of tasks.
use zenith_os.Prelude.{◌≡◌, refl, ◌==◌, if◌then◌else◌, true, false, some, [], ◌∷◌, arith}
use zenith_os.Scheduler.Queue.{Ptr, null, Links, queue_remove}
use zenith_os.Scheduler.Queue.Chain.{has, Chain}
use zenith_os.Scheduler.Queue.Remove.{without, queue_remove-Chain}

abbrev two_links : Links
two_links p = if p == 8 then 5 else null

two_links-Chain : Chain two_links 8 (8 ∷ 5 ∷ [])
two_links-Chain = (refl, omega arith, (refl, omega arith, refl))

queue_remove-Chain_example :
    (l' : Links) × (head' : Ptr) × (queue_remove 2 two_links 8 5 ≡ some (l', head'))
    × Chain l' head' (without 5 (8 ∷ 5 ∷ []))
    × (has 5 (8 ∷ 5 ∷ []) ≡ true → l' 5 ≡ null)
    × ((a : Ptr) → has a (8 ∷ 5 ∷ []) ≡ false → l' a ≡ two_links a)
queue_remove-Chain_example =
    queue_remove-Chain 2 two_links 8 5 (8 ∷ 5 ∷ []) two_links-Chain (refl, (refl, tt)) (omega arith)
      (omega arith)
