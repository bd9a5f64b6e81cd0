-- ===== src/Log/Deletion.antt =====
-- src/logendpoint.cpp, `LogEndpoint::_delete_old_logs`: which old logs are deleted.
pub mod Oldest
pub mod Order
mod Tests
use mavlink_router.Prelude.{
  ℕ, zero, suc, ◌+◌, ◌-◌, ◌%◌, ◌^◌, Bool, true, false, ◌&&◌, ◌||◌, not, Option, none, some, List,
  [], ◌∷◌, ◌++◌, ltb, leb, ◌==◌, if◌then◌else◌, length,
}

-- A log that is closed: the number that its name begins with, and its size; whether its path fits into
-- PATH_MAX, and whether it can be removed.
pub record OldLog : Type 0 where
  pub index : ℕ
  pub size : ℕ
  pub fits_path : Bool
  pub removable : Bool

-- `file_map[idx] = ...`, of a `std::map`, which is in the order of its keys.
unfoldable pub insert_log : OldLog → List OldLog → List OldLog
insert_log l [] = l ∷ []
insert_log l (m ∷ ms) =
    if l.index == m.index
    then l ∷ ms
    else if ltb l.index m.index
    then l ∷ m ∷ ms
    else m ∷ insert_log l ms

-- The loop over the directory, for the entries whose names and modes pass its tests.
unfoldable pub file_map : List OldLog → List OldLog → List OldLog
file_map [] map = map
file_map (l ∷ ls) map = file_map ls (insert_log l map)

-- A 64-bit signed number `x > 0`, as a word.
unfoldable pub is_positive64 : ℕ → Bool
is_positive64 x = ltb 0 x && ltb x (2 ^ 63)

-- The loop that deletes: the logs that are gone, and the numbers at the end.
unfoldable pub delete_loop : ℕ → ℕ → List OldLog → List OldLog × ℕ × ℕ
delete_loop bytes files [] = ([], bytes, files)
delete_loop bytes files (l ∷ ls) =
    let (gone, b, f) =
      delete_loop ((bytes + 2 ^ 64 - l.size) % 2 ^ 64) ((files + 2 ^ 64 - 1) % 2 ^ 64) ls in
    let on = delete_loop bytes files ls in
    if not (is_positive64 bytes) && not (is_positive64 files)
    then ([], bytes, files)
    else if l.fits_path && l.removable
    then (l ∷ gone, b, f)
    else on

-- What `statvfs` says of the free space: a size, or that there is no such directory, or another error.
pub data Space : Type 0 where
  measured : ℕ → Space
  no_directory unmeasured : Space

-- The numbers from which the loop begins.
unfoldable pub delete_old : ℕ → ℕ → ℕ → List OldLog → List OldLog
delete_old min_free_space max_log_files free_space listing =
    let map = file_map listing [] in
    let bytes_to_delete = (min_free_space + 2 ^ 64 - free_space) % 2 ^ 64 in
    let files_to_delete =
      if ltb 0 max_log_files then (length map + 2 ^ 64 - max_log_files) % 2 ^ 64 else 2 ^ 64 - 1 in
    if ltb min_free_space free_space && max_log_files == 0
    then []
    else (delete_loop bytes_to_delete files_to_delete map).0

-- `_delete_old_logs`: the logs that it removes, of those in the directory.
unfoldable pub delete_old_logs : ℕ → ℕ → Space → List OldLog → List OldLog
unfolding delete_old
delete_old_logs min_free_space max_log_files (measured free) listing =
    delete_old min_free_space max_log_files free listing
delete_old_logs min_free_space max_log_files no_directory listing = []
delete_old_logs min_free_space max_log_files unmeasured listing =
    delete_old min_free_space max_log_files (2 ^ 64 - 1) listing
