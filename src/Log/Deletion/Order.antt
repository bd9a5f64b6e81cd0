-- ===== src/Log/Deletion/Order.antt =====
-- src/logendpoint.cpp, `LogEndpoint::_delete_old_logs`: the logs in the order of their numbers, and the result.
use mavlink_router.Prelude.{
  ℕ, ◌+◌, ◌-◌, ◌%◌, ◌^◌, ◌<◌, ◌≡◌, inl, inr, true, false, ◌&&◌, List, [], ◌∷◌, arith, ltb, ◌==◌,
  if◌then◌else◌, Bool-cases, length, All, subst,
}
use mavlink_router.Log.Deletion.{
  OldLog, measured, unmeasured, insert_log, file_map, delete_old, delete_old_logs,
}
use mavlink_router.Log.Deletion.Oldest.{
  total, IsShortest, AreRemovable, nothing-IsShortest, delete_loop-IsShortest,
}

abbrev pub AreAbove : ℕ → List OldLog → Type 0
AreAbove i ls = All (λ l. i < l.index) ls

-- The logs stand in the order of their numbers, each number once.
abbrev pub AreSorted : List OldLog → Type 0
AreSorted [] = Unit
AreSorted (l ∷ ls) = AreAbove l.index ls × AreSorted ls

above_less : (i j : ℕ) (ls : List OldLog) → i < j → AreAbove j ls → AreAbove i ls
above_less i j [] h v = tt
above_less i j (l ∷ ls) h v = (omega (arith, h, v.0), above_less i j ls h v.1)

insert_log-AreAbove :
    (i : ℕ) (l : OldLog) (ls : List OldLog)
    → i < l.index
    → AreAbove i ls
    → AreAbove i (insert_log l ls)
unfolding insert_log
insert_log-AreAbove i l [] h v = (h, tt)
insert_log-AreAbove i l (m ∷ ms) h v = elim (Bool-cases (l.index == m.index)) [
  | inl e ↦ rw e (h, v.1)
  | inr n ↦ rw n (elim (Bool-cases (ltb l.index m.index)) [
    | inl e ↦ rw e (h, (v.0, v.1))
    | inr k ↦ rw k (v.0, insert_log-AreAbove i l ms h v.1)
  ])
]

insert_log-AreSorted : (l : OldLog) (ls : List OldLog) → AreSorted ls → AreSorted (insert_log l ls)
unfolding insert_log
insert_log-AreSorted l [] v = (tt, tt)
insert_log-AreSorted l (m ∷ ms) v = elim (Bool-cases (l.index == m.index)) [
  | inl e ↦
      let same : m.index ≡ l.index = ground (arith, e) in
      simp e (subst (λ i. AreAbove i ms) same v.0, v.1)
  | inr n ↦ elim (Bool-cases (ltb l.index m.index)) [
    | inl e ↦
        let lower : l.index < m.index = ground (arith, e) in
        simp (n, e) ((lower, above_less l.index m.index ms lower v.0), (v.0, v.1))
    | inr k ↦
        simp (n, k)
          (
            insert_log-AreAbove m.index l ms (ground (arith, n, k)) v.0,
            insert_log-AreSorted l ms v.1,
          )
  ]
]

file_map-AreSorted : (ls map : List OldLog) → AreSorted map → AreSorted (file_map ls map)
unfolding file_map
file_map-AreSorted [] map v = v
file_map-AreSorted (l ∷ ls) map v =
    file_map-AreSorted ls (insert_log l map) (insert_log-AreSorted l map v)

-- The demand on the number of logs, and what is met of it before: none if there is no limit.
abbrev pub demand : ℕ → ℕ → ℕ
demand max_log_files logs = if ltb 0 max_log_files then logs else 0

abbrev pub met : ℕ → ℕ
met max_log_files = if ltb 0 max_log_files then max_log_files else 1

files_to_delete_lem :
    (max_log_files logs : ℕ)
    → (if ltb 0 max_log_files then (logs + 2 ^ 64 - max_log_files) % 2 ^ 64 else 2 ^ 64 - 1)
      ≡ (demand max_log_files logs + 2 ^ 64 - met max_log_files) % 2 ^ 64
files_to_delete_lem max_log_files logs = ground arith

-- `_delete_old_logs`, where the free space has been measured, every log can be removed, no number of bytes gets
-- as large as 2 ^ 63, and no number of logs as large as 2 ^ 62. The logs stand in the order of their numbers; those that go are the first of them, and as
-- few as it takes: until enough bytes are free and, if the number of logs has a limit, no more
-- logs than this are left, or until there are no more.
pub delete_old_logs-IsShortest :
    (min_free_space max_log_files free : ℕ) (listing : List OldLog)
    → let map = file_map listing [] in
      min_free_space < 2 ^ 63
      → free + total map < 2 ^ 63
      → max_log_files + length map < 2 ^ 62
      → AreRemovable map
      → AreSorted map
        × IsShortest min_free_space free
            (demand max_log_files (length map))
            (met max_log_files)
            map
            (delete_old_logs min_free_space max_log_files (measured free) listing)
unfolding delete_old_logs delete_old
delete_old_logs-IsShortest min_free_space max_log_files free listing p q r v =
    let map = file_map listing [] in
    (
      file_map-AreSorted listing [] tt,
      elim (Bool-cases (ltb min_free_space free && max_log_files == 0)) [
        | inl e ↦ rw e (
            nothing-IsShortest min_free_space free (demand max_log_files (length map))
              (met max_log_files) map (inr (ground (arith, e), ground (arith, e))))
        | inr n ↦
            rw (n, files_to_delete_lem max_log_files (length map))
              (delete_loop-IsShortest min_free_space free (demand max_log_files (length map))
                (met max_log_files) map p (ground (arith, r)) q (ground (arith, r)) v)
      ],
    )

-- `_delete_old_logs`, where the free space could not be measured and the number of logs has a limit: it
-- deletes logs until `min_free_space` bytes and one more have been freed, as if nothing were free, and
-- not only until the limit is met.
delete_old_logs_unmeasured :
    (min_free_space max_log_files : ℕ) (listing : List OldLog)
    → let map = file_map listing [] in
      min_free_space + 1 < 2 ^ 63
      → total map < 2 ^ 63
      → 0 < max_log_files
      → max_log_files + length map < 2 ^ 62
      → AreRemovable map
      → IsShortest
          (min_free_space + 1)
          0
          (length map)
          max_log_files
          map
          (delete_old_logs min_free_space max_log_files unmeasured listing)
unfolding delete_old_logs delete_old
delete_old_logs_unmeasured min_free_space max_log_files listing p q m r v =
    let map = file_map listing [] in
    let limited : ltb 0 max_log_files ≡ true = ground (arith, m) in
    let some_limit : (max_log_files == 0) ≡ false = ground (arith, m) in
    let bytes : (min_free_space + 2 ^ 64 - (2 ^ 64 - 1)) % 2 ^ 64
        ≡ (min_free_space + 1 + 2 ^ 64 - 0) % 2 ^ 64 =
      omega (arith, p) in
    elim (Bool-cases (ltb min_free_space (2 ^ 64 - 1))) [
      | inl e ↦
          rw (e, some_limit, limited, bytes)
            (delete_loop-IsShortest (min_free_space + 1) 0 (length map) max_log_files map p
              (omega (arith, r)) (omega (arith, q)) (omega (arith, r)) v)
      | inr n ↦ absurd (ground (arith, n, p))
    ]
