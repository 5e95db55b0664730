-- ===== src/Live/Examples.antt =====
-- A watch of a namespace with two viewers, of which one falls behind.
use glidepath.Prelude.{List, [], ◌∷◌, All}
use glidepath.Live.Stream.{Obj, Call, polls, fails, subscribes, reads, run, new_watch}
use glidepath.Live.Stream.Viewers.{IsViewer, run-IsViewer}

abbrev build_1 : Obj
build_1 = record { kind = "PipelineRun"; name = "build"; version = "1"; body = "Running" }

abbrev build_2 : Obj
build_2 = record { kind = "PipelineRun"; name = "build"; version = "2"; body = "Succeeded" }

abbrev test_1 : Obj
test_1 = record { kind = "TaskRun"; name = "test"; version = "1"; body = "Running" }

-- Two viewers open; a poll moves `build` and starts `test`; the second viewer reads both changes;
-- `build` goes, which is one change too many for the first.
abbrev day : List Call
day =
    polls (build_1 ∷ []) []
    ∷ subscribes
    ∷ subscribes
    ∷ polls (build_2 ∷ []) (test_1 ∷ [])
    ∷ fails
    ∷ reads 1
    ∷ reads 1
    ∷ polls [] (test_1 ∷ [])
    ∷ []

run-IsViewer_example : All (IsViewer 2 (run 2 new_watch day).objs) (run 2 new_watch day).subs
run-IsViewer_example = run-IsViewer 2 day
