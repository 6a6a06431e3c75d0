-- ===== src/Lib.antt =====
-- The simulators of operating-system mechanisms of this repository, written in Python, as pure
-- functions: each method of a class is a function on the record of its fields.
--
-- Malloc: malloc_py/malloc.py. Class malloc is the record Heap; malloc, free and addToMap are malloc,
-- free and add_to_map. The search loop is search, the coalescing loop coalesce_from. The main program
-- with a list of operations is Malloc/Script.antt: a script runs against the heap and the dictionary
-- from allocation numbers to addresses. Weight.antt counts blocks and addresses, Choice.antt and
-- Search.antt are about the search, Sort.antt and Coalesce.antt about the free list, Partition.antt
-- and Release.antt about malloc and free on a heap that its blocks cut up, Script/Skips.antt about the
-- test for an invalid release.
--
-- Raid: 38-RAID/raid.py. Raid.antt has the block maps of the levels 0, 1, 4 and 5 and turns a request
-- into its physical reads and writes, in their order; Raid/Disk.antt is class disk and performs them on
-- the array. A time is counted in tenths of a millisecond, so that a seek takes 100 and a transfer 1.
-- Layout.antt and Parity.antt are about the maps, Pieces.antt and Writes.antt about writes that keep a
-- parity, Disk/Count.antt about the counters of the disks.
--
-- Cpu: x86/x86.py. Cpu.antt is the machine, Cpu/Exec.antt its instructions, Cpu/Threads.antt the
-- classes process and proclist, and Cpu/Run.antt the loop of cpu.run. The interpreter loads and stores
-- the contexts of the threads through the process list. The loop is a step and a run on fuel: a program
-- need not end, and the theorems speak of one step from any state of the invariant. The random
-- intervals between interrupts are a parameter.
--
-- Sched: schedular/schedular.py. Sched.antt has the statistics of FIFO and SJF and the loop of RR, on
-- fuel; the sum of the run times and the number of jobs, plus one, is enough. Shortest.antt is about
-- SJF, Fair.antt and Turns.antt are about RR.
--
-- Cache: paging-policy_py/paging-policy.py. Cache.antt has the memory list, the choice of the victim,
-- an access and the loop over all accesses. Pages.antt is about the list, Victim.antt about OPT and
-- UNOPT, Access.antt about an access and the loop. Clock.antt is the policy CLOCK with its reference bits;
-- its search for a victim takes its random indices from a list, and each of them removes a bit or ends the
-- search, so that cachesize * clockbits + 1 are enough for an access. Clock/Refs.antt is about the bits,
-- Clock/Victims.antt about the search, Clock/Loop.antt about an access and the loop. The random indices of RAND are a parameter; that
-- they are below the number of pages is a hypothesis, since random.random() is below 1.
--
-- Segment: segmenmation/segmentation.py. Segment.antt has the checks of the registers and the
-- translation of an address, Translate.antt the theorems.
--
-- Paging: paging-linear-translate_py/paging-linear-translate.py. Paging.antt builds the page table from
-- a list of random draws and translates an address; Frames.antt has the theorems.
--
-- Proc: process_py/process-run.py. Proc.antt is class scheduler and its run, a loop of rounds on fuel;
-- what the instructions and the I/O of the processes can take in all is enough. Recolor.antt is about
-- changes of a state, Schedule.antt about the choice of the next process, Finish.antt and Tick.antt
-- about the end of I/O, Issue.antt about an instruction, Weight.antt about what is left to do, Ends.antt
-- about a round, Loop.antt about the loop, Main.antt about the main program. The trace of what each
-- process does, which the source prints, is not kept.
--
-- Multi: paging-multilevel-translate/paging-multilevel-translate.py. Multi.antt is class OS: the
-- memory with its used pages, the page directory and the page table, and the allocation of a process.
-- The memory is a function on addresses, and an access beyond it raises IndexError. The random numbers
-- are a list; where it ends, the result is no_draw. Represents.antt says when the tables stand for a map
-- from virtual to physical pages, Memory.antt is about reads, writes and the search for a page,
-- Table.antt about a changed entry, Alloc.antt about allocVirtualPage, Start.antt about procAlloc.
--
-- Fork: cpu_api/fork.py. Fork.antt is class Forker: names, do_fork, do_exit with collect_children, and
-- the loops of run. A dictionary is a function to options, and an entry that is -1 is `some none`. The
-- depth of nested calls is a parameter, as Python has a limit on it. The loop
-- over the children of a process that is its own parent, whose list grows meanwhile, is not followed.
-- Lists.antt is about lists of names, Extend.antt and Names.antt about new names, Actions.antt about the spelling
-- of actions, Tree.antt about the tree, Linked.antt about forks, Leaves.antt about the exit of a process
-- without children and the option -L.
--
-- Disk: 37-Hard_Disk_Drivers/disk.py. Disk.antt is the state of class Disk, the layout of the blocks and
-- the checks of a phase; Disk/Policies.antt has DoSATF, DoSSTF, the window and GetNextIO, and
-- Disk/Animate.antt a tick and the loop of Go, which is on fuel: 2 * steps + 2 * n + 3 ticks for each
-- request are enough, where the arm takes steps ticks from a track to the next one and the disk n ticks
-- for a turn. Angles, positions and speeds are exact, counted in parts of a degree or a pixel. The drawing
-- is left out. disk-precise.py is the same program on decimal numbers but for one line of GetWindow, which
-- the field precise of Conf chooses. Blocks.antt is about the layout, Pick.antt about DoSATF,
-- Nearby.antt about DoSSTF, Window.antt about the window, Choice.antt about the four policies, Angle.antt
-- about the rotation. Serves.antt and States.antt are about the queue, Phase.antt says what holds while a
-- request is served, Next.antt, Plan.antt, Late.antt and Follow.antt are about GetNextIO, Straight.antt and
-- Complete.antt about the end of a request, Stay.antt, Seek.antt, Wheel.antt, Round.antt and Tick.antt
-- about a tick, Finish.antt and Whole.antt about the loop,
-- Options.antt about the program from its options on.
-- Requests.antt is MakeRequests, with its random draws as a parameter.
--
-- Prelude: the shared names, tests on numbers, lists, integers, and the result type of code that raises
-- an exception.
--
-- Not modelled: option parsing, random
-- generation of problems, and printing; the assembler of x86/x86.py; the scripts that start the
-- simulators; the drawing of the animations, and all of 38-RAID/raid-graphics.py; the programs in C; and
-- the simulator relocation_py.
pub mod Prelude
pub mod Malloc
pub mod Raid
pub mod Cpu
pub mod Sched
pub mod Cache
pub mod Segment
pub mod Paging
pub mod Proc
pub mod Multi
pub mod Fork
pub mod Disk
