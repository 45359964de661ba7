-- ===== src/StringBuilder/Runs.antt =====
-- Runs of the builder, and its theorems at concrete texts.
use unity_common.Base.{◌≡◌, refl, true, false, some, [], ◌∷◌, arith}
use unity_common.Base.Words.{Bytes}
use unity_common.StringBuilder.{
  State, Tracker, mem_alloc, mem_realloc, grow, reallocate, sb_init, sb_free, sb_clear, sb_detach,
  sb_ensure_capacity, sb_append_len,
}
use unity_common.StringBuilder.Content.{Holds, allocated, Appended, sb_append_len-Appended}
use unity_common.StringBuilder.Accounting.{
  IsTracker, Balanced, Detaches, free-append_len, sb_detach-tracker,
}

abbrev base : Tracker
base = record { allocated_bytes = 100; allocations_count = 3 }

abbrev empty : State
empty = record { builder = sb_init; tracker = base }

-- A builder of capacity 4 with the text "ab".
abbrev two : State
two = record {
  builder = record { buf = some (97 ∷ 98 ∷ 0 ∷ []); len = 2; capacity = 4; failed = false };
  tracker = record { allocated_bytes = 104; allocations_count = 4 };
}

abbrev three : Bytes
three = 99 ∷ 100 ∷ 101 ∷ []

grown : sb_append_len true (some three) two ≡ record {
  builder = record {
    buf = some (97 ∷ 98 ∷ 99 ∷ 100 ∷ 101 ∷ 0 ∷ []);
    len = 5;
    capacity = 8;
    failed = false;
  };
  tracker = record { allocated_bytes = 108; allocations_count = 4 };
}
unfolding sb_append_len sb_ensure_capacity reallocate grow mem_realloc mem_alloc
grown = refl

-- Where the allocator refuses, the text stays and the builder has failed.
refused :
    sb_append_len false (some three) two
    ≡ record two { builder = record two.builder { failed = true } }
unfolding sb_append_len sb_ensure_capacity reallocate grow mem_realloc mem_alloc
refused = refl

cleared : (sb_clear two).buf ≡ some (0 ∷ [])
unfolding sb_clear
cleared = refl

two-Holds : Holds two (97 ∷ 98 ∷ [])
two-Holds = allocated refl refl (omega arith)

two-Balanced : Balanced base two
two-Balanced = record { size = omega arith; bytes = refl; count = refl; unallocated = λ h. cc }

base-IsTracker : IsTracker base
base-IsTracker = record { bytes = omega arith; count = omega arith }

sb_append_len-Appended_example :
    Appended (97 ∷ 98 ∷ []) three two (sb_append_len true (some three) two)
sb_append_len-Appended_example =
    sb_append_len-Appended true three (97 ∷ 98 ∷ []) two (omega arith) two-Holds

free-append_len_example : (sb_free (sb_append_len true (some three) two)).tracker ≡ base
free-append_len_example =
    free-append_len base true (some three) two (omega arith) base-IsTracker two-Balanced

sb_detach-tracker_example : Detaches base false (97 ∷ 98 ∷ []) two (sb_detach false two)
sb_detach-tracker_example =
    sb_detach-tracker base false (97 ∷ 98 ∷ []) two base-IsTracker two-Balanced two-Holds

-- The string that an empty builder detaches stays counted.
empty_detached : sb_detach true empty ≡ (
  some (0 ∷ []),
  record empty { tracker = record { allocated_bytes = 101; allocations_count = 4 } },
)
unfolding sb_detach mem_alloc
empty_detached = refl
