-- ===== src/Lib.antt =====
-- A model of a lightweight BPMN engine: process definitions, their validation and index, the flow of
-- tokens, approvals, the stores, and the XML of definitions.
--
-- The parts. A process definition (internal/domain/definition) is validated and indexed as a registry. The
-- engine (internal/engine) activates an element, which may wait or complete; the completion follows the
-- flows that leave it, through gateways, to the next activations, until nothing is active and the instance
-- ends. Instances, activities, deployments and jobs are records (internal/domain/runtime) in a store
-- (internal/store/memory), which refuses a write that comes with an old version of an instance. The file
-- store keeps a snapshot of it on disk, with the XML of each definition (internal/bpmnxml) beside it, and
-- the database store keeps a row for each record.
--
-- The files. `Definition` and its children model internal/domain/definition: Model (model.go), Event
-- (event.go), Approval (approval.go, approval_quota.go), Rules (task.go, extensions.go, collaboration.go
-- and the rules of event.go), Validate (validate.go), Registry (registry.go), Return (return.go),
-- Expression (expression.go), Boundary (boundary.go and the matches of event.go). `Vars` models pkg/vars and the values of variables; `Text` what the code
-- uses of Go's strings; `Runtime` internal/domain/runtime; `Store.Memory` internal/store/memory/store.go,
-- with its children Listing (ListProcesses) and Snapshot (snapshot.go), `Store.File`
-- internal/store/filestore, and `Store.Database` the rows of internal/store/gormstore (convert.go, models.go).
-- `Engine` models internal/engine: Approval (approval.go), Assignees (vars.go and the stamps of
-- assignee_sync.go), State (the execState of engine.go with the store behind it and the world outside),
-- Flow (completeElement, activateViaFlow, the gateways and tryCompleteProcess of engine.go), Tasks
-- (tasks.go, extension.go), Activate (activateElement of engine.go), Reject (reject.go), Complete
-- (CompleteTask and failInstance of engine.go, Terminate of reject.go), Start (StartProcess and the jobs
-- of engine.go), Deploy (DeployProcess and the queries of engine.go), Activity (activity_complete.go),
-- Boundary (boundary.go), Trigger (trigger.go, trigger_signal.go, collaboration_trigger.go), Reassign
-- (assignees.go, assignee_sync.go). `Codec` models internal/bpmnxml/codec.go: the XML structures, Read from
-- them and Write to them, between which and the text stand the encoder and decoder of encoding/xml, a
-- parameter. Functions keep their names in snake case. A code error is a constructor of `Errors.Error`
-- in place of its text. `Prelude` holds the shared helpers, `Engine.Samples` small processes.
--
-- Stateful code is a function of `Exec`, which holds the store, the instance in hand, and how many answers
-- of the world are used up. The world is a parameter: the clock, uuid.New, the script runner, the HTTP
-- client, strings.ToUpper, the text of a UUID, and strconv and fmt on numbers; so are the calls of os and
-- path/filepath, and the libraries for YAML, XML and JSON, to the stores that use them. Ids and times are
-- natural numbers, with 0 for the nil id and the zero time. Records are values, so that the maps and slices
-- which two Go copies of a record share are not shared here, but for the slices of assignees that a removal
-- filters in place. What was written before an error stays written, as in the memory store. The iteration
-- order of Go's maps is that of association lists. Negative numbers of required approvals read as 0. Log
-- lines are left out.
--
-- The bounds. `activate_element` takes fuel for the depth of nested activations, which the code does not
-- bound; the error `out_of_fuel` is the model's own. Processes whose loops all go through an element that
-- waits can be ranked, and fuel above the rank of the element is enough. The upstream search of Return
-- takes as fuel the number of flows, which is enough since a flow enters its queue once.
--
-- Not modelled: the polling loop of the worker; the queries of the database store, the script
-- runners, the HTTP API, plugins, event transports and telemetry, which are input and output or wrap
-- libraries.
mod Prelude
pub mod Errors
pub mod Text
pub mod Vars
pub mod Definition
pub mod Runtime
pub mod Engine
pub mod Store
pub mod Codec
