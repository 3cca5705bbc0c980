-- ===== src/Writer/Tests.antt =====
-- The laws of the writer on a small run.
use local_pc.Common.{◌+◌, ◌≤◌, refl, arith, length, All}
use local_pc.Writer.Chunks.{init}
use local_pc.Writer.Runs.{run}
use local_pc.Writer.Contents.{Holds, run-Holds}
use local_pc.Writer.Limits.{run-Within}
use local_pc.Writer.Places.{files, IsPointed}
use local_pc.Writer.Index.{run-IsPointed}
use local_pc.Writer.Sample.{small_config, calls}

run-Holds_example : Holds (run (init small_config 0) calls).1 (run (init small_config 0) calls).0
run-Holds_example = run-Holds small_config 0 calls (refl, (refl, (refl, (refl, tt))))

run-Within_example :
    All (λ f. length f ≤ 100 + 77) (run (init small_config 0) calls).0.earlier
    × (length (run (init small_config 0) calls).0.file ≤ 100 + 77)
run-Within_example =
    run-Within small_config 77 0 calls (omega arith)
      (omega arith, (omega arith, (omega arith, (omega arith, tt))))

run-IsPointed_example :
    All
      (IsPointed (files (run (init small_config 0) calls).0))
      (run (init small_config 0) calls).0.index
run-IsPointed_example = run-IsPointed small_config 0 calls
