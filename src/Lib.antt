-- ===== src/Lib.antt =====
-- The SCXML statechart interpreter of the Go package `statecharts`: its core, modelled as functions
-- on an explicit state, with the theorems that make it correct.
--
-- The parts, and how they interact. A definition (definition.go, executable.go) is what an author or a
-- decoder writes; it is normalized and validated (definition_validate.go), and compiled to a chart
-- with the datamodel's program (compile.go). A compiled chart (chart.go, exec.go, invoke.go) is immutable. An
-- interpretation (interpreter.go) holds the active states, the recorded history, two event queues,
-- delayed sends and running invocations. A macrostep takes one external event, selects transitions,
-- runs a microstep for them (leave states, run actions, enter states), and then runs eventless
-- transitions and internal events until nothing is left to do.
--
-- - Chart: `compiledState`, `compiledTransition`, the compiled executable content. A state pointer is
--   the state's place in document order; a compiled expression is a handle. Chart/Tree: the walks
--   over the state tree at the top of interpreter.go, Chart/Tree/Walks and Chart/Tree/Order: their
--   theory.
-- - Identifier (identifier.go), Event (event.go), Value (value.go), Revision (revision.go): the data
--   that the interpreter and the compiler handle, as far as they read it. A Go string is a list of bytes.
-- - Session: what the interpreter calls and does not define, the record `Host`: the datamodel's
--   session (datamodel.go), I/O processors (ioprocessor.go), the start of invocations, hooks and the
--   string functions of the standard library. A session's operation is an `Activity`: its calls
--   through its context (`Raise`, `Send`, `Cancel`, `Log`) in order, which the interpreter performs
--   (`perform`). A `Send` with an `IDLocation` runs the location with the send's ID before the rest.
-- - Interpreter: the state `Interpretation`, the queues, reported errors. Interpreter/Send: `doSend`,
--   `dispatchNow`, timers, `doCancel`. Interpreter/Model: the calls of the session.
--   Interpreter/Execute: `executeOperation` and blocks. Interpreter/Targets: entry sets, domains,
--   exit sets. Interpreter/Select: selection and conflicts. Interpreter/Invoke: invocations.
--   Interpreter/Enter and Interpreter/Exit: `enterState`, `exitStates`, `exitInterpreter`.
--   Interpreter/Step: `microstep`, `runToStable`, `start`, `processNextExternal`. The modules below
--   each of these hold its theorems; Interpreter/Frame and Interpreter/Configuration those about
--   all of them.
-- - Definition: `Definition`, `StateDefinition`, `Executable`, and `Checked`, the result of a check that
--   fails with the path of a `DefinitionError` or dereferences a nil pointer.
-- - Validate: `normalizeDefinition`. Validate/Normalize: generated IDs, implicit default transitions and
--   types. Validate/Nodes: `collectStates` and the walks over its nodes. Validate/Expressions,
--   Validate/Content: executable content. Validate/Targets: `validateTargetSet`,
--   `collectDefaultAtoms`. Validate/Parts, Validate/States: `validateState` and its parts.
--   Validate/Canonical: the canonical bytes (definition_canonical.go), with the JSON encoding of a
--   definition as a parameter. The other modules below hold the theorems.
-- - Compile: `compileDefinitionState` and `compile_chart`; Compile/Content: data, payloads and
--   operations; Compile/Whole: `Compile`. The compiled states stand in one list in document order.
--   Compile/Arena, Compile/Compiled, Compile/Wiring, Compile/Transitions and Compile/Layout are about
--   that list, Compile/Ids, Compile/Resolved and Compile/Lookup about IDs, Compile/Sound about a
--   whole chart, and Compile/Safety and the modules Compile/Safe... about nil pointers.
-- - Value/Number: `canonicalNumber`, with Value/Digits, Value/Exponent and Value/Canonical about it.
--   Value/Wire: `Wire` and `ValueFromWire` (value.go). UTF-8 validity is a parameter.
-- - Base: lists, sets, maps and bytes. Tests: a chart that runs, and the theorems applied to it.
--
-- Bounds and fuel. A walk to the root takes at most as many steps as the state's place, since a
-- parent precedes its children (`IsTree`; Chart/Tree/Walks is about this). The search for
-- an invocation's ID has as many rounds as there are reserved IDs, and one. Effective targets nest at
-- most as deep as there are states, since each nested call visits a new history state
-- (Interpreter/Targets/Effective is about this). The entry
-- computation has a square of the number of states, which bounds its calls down the tree and through
-- history. A macrostep need not end, in the code as in the model: `run_to_stable` counts rounds and
-- returns `none` when they are too few. Counters are natural numbers and do not wrap around.
--
-- A generated ID takes as many rounds as there are reserved IDs, and one (Validate/Generated is about
-- this); the default targets of a definition nest at most as deep as there are states
-- (Validate/Atoms).
--
-- Not modelled: the instance's goroutine and locks (instance.go), snapshots, replay and storage,
-- actors, syntaxes, the datamodels; of a definition the texts of errors, of which the path is kept,
-- the JSON methods and field tags, and so the decoding of canonical bytes; kinds of states that are out
-- of range, and the index -1 of a default transition, which is written 0 and never read; and within
-- the interpreter a missing session, the cancel functions' own effects, the platform variables, and
-- panics of a logger.
pub mod Base
pub mod Identifier
pub mod Revision
pub mod Value
pub mod Event
pub mod Chart
pub mod Session
pub mod Definition
pub mod Interpreter
pub mod Validate
pub mod Compile
pub mod Tests
