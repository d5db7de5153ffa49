-- ===== src/Unblock/Tests.antt =====
-- Instances of the properties of the queue of delayed changes.
use hypr_blocker.Base.{◌≡◌, refl, inl, inr, true, false, Option, none, some, List, [], ◌∷◌, arith}
use hypr_blocker.Base.Int.{pos, ◌+ℤ◌, scale}
use hypr_blocker.Base.Text.{Text, codes}
use hypr_blocker.Base.Time.{DateTime}
use hypr_blocker.Unblock.Queue.{
  delete, update, settings, PendingUnblock, Store, delay_settings, cancel_same,
  cancel_settings_pending, cancel_for_block, put, admit, enqueue, new_entry, apply_due, text,
}
use hypr_blocker.Unblock.Queue.Slots.{
  Op, enqueue_op, cancel_op, apply_op, perform_all, OnePerSlot, perform_all-OnePerSlot,
}
use hypr_blocker.Unblock.Queue.Waiting.{queue_changes_nothing_early}
use hypr_blocker.Unblock.Delay.{UnblockDelayUpdate, update_unblock_delay, queued, change_delay}
use hypr_blocker.Unblock.Delay.Loosening.{KeepsDelay, delay_loosening_waits}
use hypr_blocker.Unblock.Queue.Applied.{Lacks, due_deletion_happens}

abbrev no_dates : Text → Option DateTime
no_dates t = none

-- A delay of ten minutes, two blocks, and nothing pending.
abbrev two_blocks : Store
two_blocks = record {
  pending = [];
  config = record { unblock_delay_enabled = true; unblock_delay_minutes = pos 10 };
  rows =
      record { row_id = 1; columns = (codes "name", text (codes "news")) ∷ [] }
      ∷ record { row_id = 2; columns = [] }
      ∷ [];
}

abbrev busy_day : List Op
busy_day =
    enqueue_op 7 (delete 1) (pos 0)
    ∷ enqueue_op 8 (update 1 []) (pos 1000)
    ∷ cancel_op 3
    ∷ enqueue_op 9 (settings (record { new_minutes = none; new_enabled = some false })) (pos 2000)
    ∷ apply_op (pos 599999)
    ∷ []

perform_all-OnePerSlot_example : OnePerSlot (perform_all no_dates busy_day two_blocks).pending
perform_all-OnePerSlot_example = perform_all-OnePerSlot no_dates busy_day two_blocks tt

queue_changes_nothing_early_example :
    ((perform_all no_dates busy_day two_blocks).config ≡ two_blocks.config)
    × ((perform_all no_dates busy_day two_blocks).rows ≡ two_blocks.rows)
unfolding delay_settings ◌+ℤ◌ scale
queue_changes_nothing_early_example =
    queue_changes_nothing_early no_dates (pos 0) (pos 10) busy_day two_blocks refl
      (omega arith, (omega arith, (tt, (omega arith, (omega arith, tt))))) tt

-- The entry of a deletion of the first block at 5000.
abbrev asked : PendingUnblock
asked = new_entry 7 (delete 1) (pos 5000) (pos 10)

asked_is_queued :
    enqueue 7 (delete 1) (pos 5000) two_blocks
    ≡ some (asked, record two_blocks { pending = asked ∷ [] })
unfolding enqueue admit cancel_same cancel_for_block put delay_settings
asked_is_queued = refl

-- The delay is turned off and a block deleted in the same round.
abbrev turning_off : Store
turning_off = record two_blocks {
  pending =
      record {
        id = 4;
        change = settings (record { new_minutes = none; new_enabled = some false });
        created_at = pos 0;
        effective_at = pos 600000;
      }
      ∷ record { id = 5; change = delete 2; created_at = pos 1; effective_at = pos 600001 }
      ∷ [];
}

due_deletion_happens_example : Lacks 2 (apply_due no_dates (pos 700000) turning_off).rows
due_deletion_happens_example =
    due_deletion_happens no_dates 2 (pos 700000) turning_off (inr (inl (omega arith, refl)))

abbrev turn_off : UnblockDelayUpdate
turn_off = record { enabled = some false; delay_minutes = some (pos 10) }

abbrev turning_off_entry : PendingUnblock
turning_off_entry =
    new_entry 5 (settings (record { new_minutes = none; new_enabled = some false })) (pos 100)
      (pos 10)

turning_off_is_queued :
    update_unblock_delay turn_off 5 (pos 100) two_blocks
    ≡ queued turning_off_entry (record two_blocks { pending = turning_off_entry ∷ [] })
unfolding update_unblock_delay change_delay enqueue admit cancel_same cancel_settings_pending put
    delay_settings
turning_off_is_queued = refl

delay_loosening_waits_example :
    KeepsDelay (pos 100) two_blocks (update_unblock_delay turn_off 5 (pos 100) two_blocks)
delay_loosening_waits_example =
    delay_loosening_waits turn_off 5 (pos 100) two_blocks refl (omega arith) (omega arith)
