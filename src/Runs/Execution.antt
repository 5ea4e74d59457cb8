-- ===== src/Runs/Execution.antt =====
-- `_run_steps` and `_run_step` of backend/graph/executor.py: the waves of a plan, whose nodes run
-- on a pool of threads. A step of a node reads its inputs under the lock of the values, works, and
-- stores its result under the lock; the main loop collects the ends of the steps. Each of these is a
-- function here, and Runs/Execution/Steps lets them come in any order that the code allows.
pub mod Steps
pub mod Sequence
pub mod Reads
pub mod Progress
mod Tests
mod PlannedTests
use mathlib.Core.Option
use lluna.Prelude.{
  ℕ, ◌+◌, ◌*◌, ◌/◌, min, max, String, Bool, true, false, not, ◌&&◌, ◌||◌, Option, none, some, List,
  [], ◌∷◌, ◌++◌, length, if◌then◌else◌,
}
use lluna.Prelude.Key.{string_key}
use lluna.Prelude.Sets.{elem, subset}
use lluna.Prelude.Dict.{Dict, get?, get_or, put}
use lluna.Graph.Schema.{PortDefinition}
use lluna.Runs.Values.{Value, Store, Incoming, source_key, input_values, store_result}

-- What the threads and the main loop share, and where they stand.
pub record Execution : Type 0 where
  -- The waves from the one on that is being run, and the nodes of those before.
  pub waves : List (List String)
  pub past : List String
  pub values : Store
  -- The nodes whose step has passed the test of the cancel flag.
  pub entered : List String
  -- The inputs that each node has read.
  pub read : Dict String (Dict String Value)
  -- The nodes whose result is stored.
  pub stored : List String
  -- The nodes that the main loop has collected in this wave.
  pub collected : List String
  -- How many nodes are done, of how many (`_Progress`), and the progress of the run.
  pub finished : ℕ
  pub total : ℕ
  pub progress : ℕ
  pub failure : Option String
  pub cancel : Bool

abbrev pub first_wave : List (List String) → List String
first_wave [] = []
first_wave (wave ∷ rest) = wave

abbrev pub current : Execution → List String
current s = first_wave s.waves

-- `values` are those that enter the plan from outside.
abbrev pub begin_steps : Store → List (List String) → ℕ → Execution
begin_steps values waves total = record {
  waves = waves;
  past = [];
  values = values;
  entered = [];
  read = [];
  stored = [];
  collected = [];
  finished = 0;
  total = max 1 total;
  progress = 0;
  failure = none;
  cancel = false;
}

-- `_run_step` up to the test of the cancel flag. If it is set, the step raises: see `fail`.
unfoldable pub enter : String → Execution → Execution
unfolding elem
enter node_id s =
    if elem node_id (current s) && not (elem node_id s.entered) && not s.cancel
    then record s { entered = node_id ∷ s.entered }
    else s

-- A step that has entered and not read, and one that has read and not stored or raised.
unfoldable pub may_begin : String → Execution → Bool
unfolding elem get?
may_begin node_id s =
    elem node_id (current s)
    && elem node_id s.entered
    && not (elem node_id s.collected)
    && elim (get? node_id s.read) [ none ↦ true | some i ↦ false ]

unfoldable pub at_work : String → Execution → Bool
unfolding elem get?
at_work node_id s =
    elem node_id (current s)
    && not (elem node_id s.stored)
    && not (elem node_id s.collected)
    && elim (get? node_id s.read) [ none ↦ false | some i ↦ true ]

-- The assembly of the inputs, under the lock.
unfoldable pub read_inputs : Incoming → String → Execution → Execution
unfolding may_begin input_values get_or put
read_inputs incoming node_id s =
    if may_begin node_id s
    then record s { read = put node_id (input_values s.values (get_or [] node_id incoming)) s.read }
    else s

-- The end of `_run_step`.
unfoldable pub store_step : List PortDefinition → String → Option Value → Execution → Execution
unfolding at_work store_result
store_step outputs node_id result s =
    if at_work node_id s
    then record s {
      values = store_result node_id outputs result s.values;
      stored = node_id ∷ s.stored;
    }
    else s

-- `progress.advance(control)`
abbrev pub percent : ℕ → ℕ → ℕ
percent finished total = min 100 (finished * 100 / total)

-- The main loop finds that a step has returned.
unfoldable pub advance : String → Execution → Execution
unfolding elem
advance node_id s =
    if elem node_id (current s) && elem node_id s.stored && not (elem node_id s.collected)
    then record s {
      collected = node_id ∷ s.collected;
      finished = s.finished + 1;
      progress = percent (s.finished + 1) s.total;
    }
    else s

-- The main loop finds that a step has raised, at whatever place: the first failure is kept, and
-- the other steps are told to stop. Without a pool the loop ends here, and no step enters after that
-- either.
unfoldable pub fail : String → String → Execution → Execution
unfolding elem
fail node_id code s =
    if elem node_id (current s) && not (elem node_id s.collected)
    then elim s.failure [
      | none ↦ record s { collected = node_id ∷ s.collected; failure = some code; cancel = true }
      | some first ↦ record s { collected = node_id ∷ s.collected }
    ]
    else s

-- `control.cancel.set()` by the user.
abbrev pub stop : Execution → Execution
stop s = record s { cancel = true }

-- The next round of `for wave in waves`, when all steps of the wave have returned.
unfoldable pub next_wave : Execution → Execution
unfolding subset
next_wave s = elim s.failure [
  | none ↦ elim s.waves [
    | [] ↦ s
    | wave ∷ rest ↦
        if subset wave s.collected
        then record s { waves = rest; past = s.past ++ wave; collected = [] }
        else s
  ]
  | some code ↦ s
]
