-- ===== src/Lib.antt =====
-- AutoWeaver runs behaviour trees for a robot cell. A `Batch` is one run of a tree; a `BTClock`
-- ticks the one Batch that is attached and then the Workers; the trees and the Workers meet in a
-- `WorldBoard` of states and notes, and the nodes of one tree share a `Blackboard`. These are in
-- src/autoweaver/motion_policy/ and src/autoweaver/worker/; a sensor hands its observations on
-- through an `ObservationQueue`, in src/autoweaver/sensor/; src/autoweaver/comm/ talks to a PLC,
-- and src/autoweaver/servo/ decides the moves of a visual servo loop. src/autoweaver/frames/ finds
-- the transform between two coordinate frames, and src/autoweaver/logbook/ records a run.
--
-- Blackboard (and Blackboard/Writers) models motion_policy/blackboard.py: `Blackboard` has the
-- dicts of the class, and `register_key`, `write`, `read`, `set_initial`, `has_key`, `keys`,
-- `clear`, `reset` are its methods. A key that is missing reads as `none`.
--
-- WorldBoard models motion_policy/world_board.py: the record has the attributes of the class, and
-- each method is the function of its name, `_commit` is `commit`, `_split_namespace` is
-- `split_namespace`. What a receiver of notes does is a parameter of `deliver_notes`.
-- WorldBoard/Ownership, WorldBoard/History and WorldBoard/Notes are about namespaces, snapshots
-- and notes.
--
-- Tree models motion_policy/nodes/. Tree/Types has one constructor for each node class with the
-- attributes of the class; Tree/Leaf has `on_start`, `on_running`, `on_halted` and `reset` of the
-- leaves; Tree/Decorator has what a decorator does before and after it ticks its child; Tree/Walk
-- is `tick` and `halt` over a whole tree, with the control nodes. What a user supplies (the check
-- of a Condition, the device of an ActionLeaf, the functions of Chalk and RepeatUntil) is a
-- function in the node. Tree/Walk/Calm and Tree/Walk/Quiet are about trees between two ticks,
-- Tree/Walk/Attempts is about Retry. Tree/Operators has the operators of nodes/node.py that build
-- trees.
--
-- Batch models motion_policy/batch.py: `tick_batch` is `Batch.tick`, `kill_batch` is `kill`,
-- `abort` is `_abort`, `finalize` and `enter_exit` are the methods with an underscore. The tracer,
-- whose callbacks may raise, and the measured duration of a tick are parameters, and so is the
-- text of an exception. `abort_steps` are the guarded steps of `_abort`, each of which may raise.
-- Batch/Failure, Batch/Raised, Batch/Lifecycle, Batch/Outcome and Batch/Verdict are about its end.
--
-- Clock models worker/clock.py: Batches and Workers are objects that callers hold too, so the
-- clock has their numbers, and `heap` and `staff` have the objects. `submit`, `kill`,
-- `attach_worker`, `detach_worker`, `pause_worker`, `resume_worker`, `tick_once`, `shutdown` are
-- the methods. The hooks of the Workers, the receivers, the drain of the async pools and the
-- tracer are the record `Environment`, any of which may raise. Clock/Slot and Clock/Workers are
-- about the two.
--
-- Workers models what the framework does around a Worker: Workers has the namespaces, framework
-- states and request ids of worker/base.py; Workers/Motion is `MotionWorker` of worker/motion.py,
-- and Workers/Perception the receiver of `PerceptionWorker` of worker/perception.py. The board
-- that they post on is the interface `Board`, which `world_board` fills with the WorldBoard;
-- Workers/Account fills it with a board that keeps an account of the posts. Workers/Motion/Served,
-- Workers/Motion/Requests and Workers/Perception/Protocol are about requests.
--
-- Pools models worker/async_pool.py: `submit`, its runner as `finish`,
-- `drain_main_thread_callbacks` as `drain`, with `drain_next` for one round of its loop, `close`,
-- and the registry. Pools/Steps has the threads as an interleaving of steps, and Pools/Accounts is
-- about their callbacks.
--
-- Comm models comm/modbus_primitive.py: Comm has the contract, the data of a step and the order of
-- a pose, Comm/Engine has `_do_write`, `_do_read`, `_do_read_until` and `run_action`. `RegisterIO`
-- and `Clock` are parameters. Comm/Ends says what a wait may end in, Comm/Waits and Comm/Actions
-- are about the end of a wait and of an action, Comm/Rounds about the rounds that the waits are
-- given, Comm/Poses about the order of a pose.
--
-- Servo models `ServoController` of servo/controller.py and `ibvs_velocity` of servo/law.py, over
-- floats and arrays as a parameter. Servo/Episode is about a controller that is stepped until it
-- decides.
--
-- Delivery models `ObservationQueue` of sensor/delivery.py: the record has its attributes without
-- the condition variable, and `offer`, `take`, `take_dropped`, `abandon`, `close` are its methods.
-- Delivery/Accounts, Delivery/Order and Delivery/Policy are about sequences of calls on one queue.
--
-- Sensors models `Sensor` of sensor/base.py: `observe`, `_acquire_one` as `acquire_one`,
-- `_publish` as `publish`, `add_observer`, `remove_observer`, `set_slow_dispatcher` and
-- `take_dropped`. The device, its observers and the dispatcher are parameters. Sensors/Readings,
-- Sensors/Observers and Sensors/Registry are about its observations, their delivery and the list
-- of observers.
--
-- Reactive models reactive/event_bus.py and reactive/state_machine.py: `subscribe`, `unsubscribe`,
-- `publish`, `trigger`, `set_state`, `add_transition`, and `_notify_transition` as
-- `notify_transition`. Reactive/Moves is about the states that a machine goes through.
--
-- Frames models `Frames` of frames/frames.py, the coordinate frames of a cell: `load` is the loop
-- of `__init__` over the entries, `bind_dynamic` and `add_edge` are methods, `search`, `scan` and
-- `rebuild` are the loops of `_find_path`. Frames/Query has `lookup`, `_hop_matrix`,
-- `_edge_between` and `_edge_value`. Arrays are a parameter. Frames/Schema is the parser of the
-- calibration file in frames/schema.py, over what NumPy makes of its numbers. Frames/Walks says
-- what a path is; Frames/Scan, Frames/Rounds and Frames/Rebuild are about the search, Frames/Build
-- about the graph, Frames/Hops and Frames/Lookup about a hop and a lookup, Frames/Files about a
-- file that is loaded.
--
-- Logbook models the package logbook/: Logbook has the values that a row may hold, some of which
-- JSON has no place for (`foreign`); Logbook/Serialize is `to_jsonable` of serialize.py;
-- Logbook/Book has the record of the book, `scribe`, `set_context`, `update_context`, `count` and
-- `summarise` of book.py, and the steps of `Scribe._write` of scribe.py that touch the ledger: its
-- number as `next_seq`, its line as `append_line`; Logbook/Attachments has the part of it on
-- attachments, Logbook/Writer their writer of attachment.py, and Logbook/Scribe puts them together
-- as `write_row`, with `write` around it. Between its steps, which are the number, `put_row` up to
-- the line, and the tally, other threads may call: Logbook/Threads has the calls and the writes
-- that are under way. A scribe is found by its ledger. Clocks and files are the parameter `Moment`
-- of a call, and any of them may fail. Logbook/Closing has `close` and `_write_summary`.
-- Logbook/Root has `prune_old_runs` of root.py, with dates and the days to keep as the parameter
-- `Dates`, and `resolve_batch` of identity.py. Logbook/Coerced and Logbook/Lossless are about the
-- coercion, Logbook/Ledgers, Logbook/Calls, Logbook/Kept and Logbook/Accounts about the ledgers
-- over many calls, Logbook/Rows about one row, Logbook/Sweep about the sweep, Logbook/Summary
-- about the close, and Logbook/Watched and Logbook/Backlog about what becomes of the attachments.
--
-- Modbus models the REAL(32) words of comm/modbus_protocol.py: `float_to_words`, `words_to_float`,
-- `_word_to_bytes`, `_bytes_to_word`, and what `write_real32_block` and `read_real32_block` make
-- of a block. `struct.pack` and `struct.unpack` are parameters. Modbus/Words is about the round
-- trip.
--
-- Prelude passes on the names of the library and has Boolean tests and lists over the native
-- numbers; Dict is a Python dict; Value has Python values, the exceptions that are raised, and the
-- result of a call; Exec is code that changes a state and may raise. Tests has runs at concrete
-- inputs.
--
-- Bounds. Times are natural numbers in one fixed unit, and `time.monotonic()` is an argument.
-- Integers in Python have no width, and the counters of the program are natural numbers; the words
-- of Modbus have 16 bits, cut with `% 65536` where the code has `& 0xFFFF`. The loops are over
-- lists or the children of a node, but for the poll of `_do_read_until`, which has a number of
-- rounds for each wait: `none` stands for a wait that is not over by then. The two loops of
-- `_find_path` have a number of rounds that follows from the graph, and Frames/Rounds and
-- Frames/Rebuild show that it is enough. Comm/Waits shows how many rounds are enough, and
-- Comm/Rounds that more change nothing.
--
-- Not modelled: locks and threads (but for the pools and the writes of a scribe, a call is one
-- step), logging, ServoLeaf, `KeyboardInterrupt` and `SystemExit`, `run_background`, and the
-- packages device, pipeline and tasks with the rest of comm/, frames/, logbook/, sensor/ and
-- servo/. The text that Python normalises with `strip` and `lower` is taken as ASCII.
pub mod Prelude
pub mod Dict
pub mod Value
pub mod Exec
pub mod Blackboard
pub mod WorldBoard
pub mod Tree
pub mod Batch
pub mod Clock
pub mod Workers
pub mod Delivery
pub mod Modbus
pub mod Comm
pub mod Servo
pub mod Sensors
pub mod Reactive
pub mod Frames
pub mod Pools
pub mod Tests
pub mod Logbook
