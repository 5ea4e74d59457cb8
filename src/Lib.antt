-- ===== src/Lib.antt =====
-- Verification of the backend of Lluna, a desktop application that runs image and video workflows.
-- A workflow is a graph of nodes. The backend plans the nodes that a run covers, groups them into
-- dependency levels, admits them to inference devices and keeps a queue of runs; beside this it
-- keeps a queue of model installs and the settings of the models.
--
-- Graph follows backend/graph. Graph/Schema has the port types and the edges of a workflow
-- document (schema.py, types.py). Graph/Scheduler is the first half of scheduler.py:
-- `dependencies` builds a dictionary by the loop over the edges, `execution_waves` is the `while
-- queue` loop, on fuel. The fuel is the number of nodes, and each round settles one node at least,
-- so the outcome `out_of_fuel` never comes. Graph/Devices is the second half: `node_kind`,
-- `plan_concurrency`, and `DeviceScheduler`, whose method `slot` is cut into its atomic steps;
-- Graph/Devices/Admission lets any number of threads make these steps in any order. How many
-- devices there are, and whether concurrency is switched on, is read from the machine and is left
-- to the caller.
--
-- Graph/Scope and Graph/Order are parts of validation.py. Graph/Scope says which nodes a run
-- covers: `_adjacency` and `_closure` build the dictionaries of links and walk along them with a
-- stack, whose top is the head of a list, on fuel that counts the seeds and the links;
-- `runnable_node_ids` and `scoped_node_ids` use them. The catalog of node definitions
-- (registry.py) is an argument. Where the code turns a set into a list, whose order Python leaves
-- open, the model keeps the order in which the set was made; the theorems do not depend on it.
-- Graph/Order is `topological_order`, on fuel that is the number of nodes. The theorems say that
-- this fuel is enough.
--
-- Graph/Issues, Graph/Parameters, Graph/Ports, Graph/Batches, Graph/Connections and
-- Graph/Validation are the rest of validation.py: the issues, the checks of a node and its
-- parameters, the ports, the nodes that hold a queue of items, the loop over the edges, and
-- `validate_workflow` that puts all together. An issue keeps its severity, code, node and edge;
-- the texts are left out. What the checks ask of the model registry and of the contracts of the
-- models enters as two functions (`Services`), which return issues and do not raise: `get_node`,
-- which is asked only for types of the catalog, `validate_generation_inputs` and the test whether
-- a model can be used. Graph/Compiler makes the steps of a workflow that was found valid, and
-- Graph/Planning is `compile_workflow` of compiler.py as a whole, with the levels of its plan; the
-- cache keys of the steps are left out.
--
-- Graph/Migrations is migrations.py. A saved node is a dictionary of JSON values (Json). A
-- migration may raise, and the exceptions of Python's `int`, `str` and `dict` on unusual values
-- are results. The loop of `migrate_node` runs on fuel, the number of versions to the target,
-- which is enough.
--
-- Config follows backend/configuration. Config/Migrations is migrations.py, on dictionaries of
-- JSON values; Config/Layers is the merging of settings, which loader.py and service.py both
-- define. Config/Models is models.py: a settings class is the list of its fields with their
-- defaults and checks (Config/Models/Schema), and Config/Models/Application is
-- `ApplicationConfiguration`. Config/Loader is the layers of loader.py, without the reading,
-- backing up and writing of files. Config/Service is service.py; whether the write of the file
-- succeeds is an argument, and exceptions of the listeners are left out.
--
-- Downloads follows backend/tools/shared. Downloads/Queue is download_queue.py: a state with the
-- queue, the running job, whether a worker thread is alive, the history and the next id, and one
-- function for each locked block of the class. The two blocks of the worker's loop are
-- `worker_take` and `worker_finish`; between them stands the work of the job, which enters by its
-- outcome. Downloads/Queue/Invariant lets all of them happen in any order. Times, transfer rates
-- and the estimates from them are floating point and are left out, and so are the listeners.
--
-- Downloads/Registry is download_registry.py: the installs in course, the file of the pending ones
-- as a list of entries, and the cancel flags. Each operation takes a Bool that says whether its
-- read of the file succeeds and one that says whether its write does; a read that raises OSError
-- gives no entries, as in the code. Exceptions that the code does not catch there, such as that of
-- a text that is not UTF-8, are left out.
--
-- Runs is the `RunManager` of backend/graph/executor.py. Runs/Manager has the controls of the
-- runs, the queue and what the API's threads do: `start`, `pause`, `resume`, `cancel`, `shutdown`.
-- The heap is kept as the list in which it is popped, since the code reads it by heappop and
-- sorted alone. Runs/Dispatch has the steps of the dispatcher thread, whose place is a field of
-- the state, and the history. The plan and the work of the nodes are left out there; how a run
-- ends enters as an outcome. Runs/Steps lets the writes of all threads and the dispatcher's steps
-- come in any order, and gives out each id once, as uuid4 does. Runs/Positions, Runs/History and
-- Runs/Cancellation are about single operations. Runs/Values has the values on the ports and the
-- inputs of a node, and Runs/Execution the waves of a plan: each thing that a step or the main
-- loop does under a lock is a function, and Runs/Execution/Steps lets them come in any order; a
-- step may raise at any place. This covers the run without a pool too, whose steps come one after
-- the other: Runs/Execution/Sequence is that loop, for steps that do not raise. The files named
-- Planned there are about the runs of a plan that `compile_workflow` makes. Runs/Retry is the loop
-- of `_invoke_worker`, over what each attempt comes to, with the exceptions of the client and the
-- jobs that are never done; the artifacts that are made of its path are left out. The state of a
-- node, the events and the cache of results are not modelled.
--
-- Settings/EnabledModes is backend/tools/shared/enabled_modes.py. The catalog is an argument, the
-- two settings are a state, and the texts are parsed and printed character by character
-- (Prelude/Text has Python's strip, split and join).
--
-- Inference is backend/tools/inference/client.py. Inference/Client has the state of an
-- `InferClient`, its worker processes as numbers, and how a worker and a job are started;
-- Inference/Jobs has the steps of the reader and watchdog threads and `cancel`, Inference/Starts
-- has `start_job` and the other operations of the API. An operation that calls `ensure_started`
-- says whether that returned; `start_job` takes it and the block that follows for one step, though
-- the code frees the lock between them. The callbacks of a job are recorded as calls; what they do
-- is not modelled, nor are clocks and log lines. Inference/Steps lets all operations come in any
-- order.
--
-- Prelude has the shared notation: Boolean tests, lists, Python's sets as lists without repetition
-- (Prelude/Sets) and dictionaries as association lists in insertion order (Prelude/Dict).
--
-- Not modelled are the neural networks and the media processing, which call third-party libraries,
-- the detection of hardware, the HTTP routes, the desktop frontend, and the copy of PySceneDetect.
pub mod Config
pub mod Downloads
pub mod Graph
pub mod Inference
pub mod Json
pub mod Prelude
pub mod Runs
pub mod Settings
