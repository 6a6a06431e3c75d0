-- ===== src/Proc/Tests.antt =====
-- Runs of process_py/process-run.py at small inputs.
use os_tep.Prelude.{ℕ, ◌+◌, ◌*◌, ◌≤◌, ◌≡◌, refl, Option, none, some, [], ◌∷◌, arith, length}
use os_tep.Prelude.Fault.{ok, raise, type_error, assertion_error, Result, Returns}
use os_tep.Proc.{
  compute, io, on_io, on_end, run_later, run_immediate, ready, finished, Config, load_all,
  num_active, Run, move, tick, run,
}
use os_tep.Proc.Main.{total, started, started-IsScheduled, started-Times, run-ends}
use os_tep.Proc.Ends.{Ticked, tick-Ticked}

abbrev later_cfg : Config
later_cfg = record { switch = on_io; io_done = run_later; io_length = 5 }

abbrev end_cfg : Config
end_cfg = record { switch = on_end; io_done = run_immediate; io_length = 2 }

-- the times that a run shows, `(0, 0, 0)` if it does not end
abbrev shown : Result (Option Run) → ℕ × ℕ × ℕ
shown (ok (some r)) = (r.cpu_busy, r.io_busy, r.clock_tick)
shown (ok none) = (0, 0, 0)
shown (raise e) = (0, 0, 0)

-- the I/O of the first process overlaps with the second one's computation
overlap_test :
    shown (
      run 50 later_cfg
        (load_all ((io ∷ []) ∷ (compute ∷ compute ∷ compute ∷ compute ∷ []) ∷ []) []))
    ≡ (5, 4, 6)
unfolding run load_all
overlap_test = refl

no_process_test : run 50 later_cfg [] ≡ raise type_error
unfolding run
no_process_test = refl

-- a process that is done cannot be run
move_test :
    move ready finished 0
      (record { procs = record { code = []; state = finished; finish_times = [] } ∷ []; curr = 0 })
    ≡ raise assertion_error
unfolding move
move_test = refl

tick-Ticked_example :
    Returns
      (Ticked end_cfg (record {
        sched = started end_cfg (io ∷ compute ∷ []) ((compute ∷ []) ∷ []);
        clock_tick = 0;
        cpu_busy = 0;
        io_busy = 0;
      }))
      (tick end_cfg (record {
        sched = started end_cfg (io ∷ compute ∷ []) ((compute ∷ []) ∷ []);
        clock_tick = 0;
        cpu_busy = 0;
        io_busy = 0;
      }))
tick-Ticked_example =
    tick-Ticked end_cfg
      (record {
        sched = started end_cfg (io ∷ compute ∷ []) ((compute ∷ []) ∷ []);
        clock_tick = 0;
        cpu_busy = 0;
        io_busy = 0;
      })
      (omega arith) (started-IsScheduled end_cfg (io ∷ compute ∷ []) ((compute ∷ []) ∷ []))
      (started-Times end_cfg (io ∷ compute ∷ []) ((compute ∷ []) ∷ []))

run-ends_example :
    (r : Run) × (run 21 later_cfg (load_all ((io ∷ compute ∷ []) ∷ (compute ∷ []) ∷ []) [])
      ≡ ok (some r))
    × (num_active r.sched.procs ≡ 0)
    × (r.cpu_busy ≡ total ((io ∷ compute ∷ []) ∷ (compute ∷ []) ∷ []))
    × (r.clock_tick
        ≤ total ((io ∷ compute ∷ []) ∷ (compute ∷ []) ∷ []) * (later_cfg.io_length + 1)
          + length ((io ∷ compute ∷ []) ∷ (compute ∷ []) ∷ []))
run-ends_example =
    run-ends later_cfg (io ∷ compute ∷ []) ((compute ∷ []) ∷ []) 21 (omega arith) (omega arith)
