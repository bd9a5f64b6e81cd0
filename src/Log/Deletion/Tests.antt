-- ===== src/Log/Deletion/Tests.antt =====
-- The deletion of old logs at concrete inputs.
use mavlink_router.Prelude.{ℕ, ◌+◌, ◌^◌, ◌<◌, refl, true, List, [], ◌∷◌, arith, length}
use mavlink_router.Log.Deletion.{OldLog, measured, insert_log, file_map, delete_old_logs}
use mavlink_router.Log.Deletion.Oldest.{total, IsShortest, AreRemovable}
use mavlink_router.Log.Deletion.Order.{AreSorted, demand, met, delete_old_logs-IsShortest}

abbrev log_of : ℕ → ℕ → OldLog
log_of index size = record { index = index; size = size; fits_path = true; removable = true }

abbrev listing : List OldLog
listing = log_of 3 100 ∷ log_of 1 50 ∷ []

total_small : 20 + total (file_map listing []) < 2 ^ 63
unfolding total file_map insert_log
total_small = omega arith

total_small_alone : total (file_map listing []) < 2 ^ 63
unfolding total file_map insert_log
total_small_alone = omega arith

count_small : 1 + length (file_map listing []) < 2 ^ 62
unfolding file_map insert_log
count_small = omega arith

all_removable : AreRemovable (file_map listing [])
unfolding file_map insert_log
all_removable = (refl, (refl, tt))

delete_old_logs-IsShortest_example :
    AreSorted (file_map listing [])
    × IsShortest 60 20
        (demand 1 (length (file_map listing [])))
        (met 1)
        (file_map listing [])
        (delete_old_logs 60 1 (measured 20) listing)
delete_old_logs-IsShortest_example =
    delete_old_logs-IsShortest 60 1 20 listing (omega arith) total_small count_small all_removable
