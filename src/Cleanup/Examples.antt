-- ===== src/Cleanup/Examples.antt =====
-- A failed job and a waiting one, and a tick long after; the theorem at the failed job.
use filemagic_backend.Prelude.{◌≡◌, Bool, true, [], none, Text, codes, eq_text}
use filemagic_backend.Dict.{lookup, insert}
use filemagic_backend.Queue.{remove_from_order, submit, enqueue, is_refused, inflight_of, conclude}
use filemagic_backend.Queue.Machine.{Reach, start}
use filemagic_backend.Queue.Examples.{concluded, concluded_reached}
use filemagic_backend.Upload.{Server}
use filemagic_backend.Cleanup.{Cleaner, is_settled, is_expired, tick}
use filemagic_backend.Cleanup.Sweep.{Swept, tick_refines}

abbrev cleaner : Cleaner
cleaner = record { tmpfs_path = codes "/t"; cleanup_max_age = 10 }

abbrev all_removable : Text → Bool
all_removable dir = true

abbrev swept : Server
swept =
    tick all_removable all_removable cleaner 99 99 none
      (record { queue = concluded.queue; job_dirs = [] })

tick_refines_example :
    Swept cleaner 99 concluded.queue swept.queue
    × Reach concluded (record concluded { queue = swept.queue })
    × (lookup (codes "a") swept.queue.jobs ≡ none)
unfolding start lookup submit enqueue is_refused inflight_of insert eq_text conclude is_expired
    is_settled remove_from_order
tick_refines_example =
    tick_refines all_removable all_removable cleaner 99 99 9 concluded none [] (codes "a")
      concluded_reached
