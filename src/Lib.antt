-- ===== src/Lib.antt =====
-- Verification library of hostel, the daemon that keeps the Beds (sandboxes) of one carrier.
--
-- Parts and how they interact. The Bed manager (internal/bed/manager) owns the Beds: it admits
-- operations and sessions, keeps the retention clock, persists and evicts. It asks the resource
-- admission (internal/bed/resource) before an unpinned Bed takes work, assigns each Bed a Unix user
-- (internal/bed/privilege), drives the hooks of its subsystems in order (internal/bed/lifecycle.go)
-- and supervises the Bed's long-running processes, the Pillows (internal/bed/pillow). Ports come from
-- one daemon-wide manager and egress policies from the private networks (internal/host/network); the
-- port mappings of Beds (internal/bed/network) hold ports of that manager. Commands run as executions
-- with bounded output (internal/bed/manager/execution.go). Snapshots go to the object store through a
-- store that routes between layouts, and single files through a registry of transfers
-- (internal/bed/store).
--
-- Which file models what:
--   Base       shared names, Boolean tests, Go maps as association lists, Go results, integers.
--   Manager    internal/bed/manager. State: `managedBed` and `Manager`; a `*managedBed` is an address
--              of the manager's `heap`, so a handle may outlive its entry in `beds` as in the code.
--              Operation, Retention, Eviction, Persist, Identity, Pressure: the critical sections of
--              operation.go, session.go, renew.go, lifecycle_state.go, eviction.go, manager.go,
--              initialization.go and purge.go. World: their interleavings as a step relation; the
--              other files prove what every run keeps.
--   Ports      internal/host/network/ports.go: `PortManager` and `PortAllocation`.
--   Policy     internal/host/network/policy.go: `NormalizePolicy`, `ApplyMutation`, the verdicts and
--              `policyControl.update`.
--   Users      internal/bed/privilege/bed_user_allocator.go: `BedUserAllocator`.
--   Mappings   internal/bed/network/port_mappings.go on top of Ports: `PortMappings`, `PortMapping`.
--   Execution  internal/bed/manager/execution.go and execution_log.go: `Execution` and
--              `ExecutionRegistry`. Output holds the cache, Terminal and Ending the race of stops with
--              the end of the process, Registry the index and its pruning; the other files are proofs.
--   Store      internal/bed/store/sync/auto.go: `Auto`, over the interface `Stores` of the backends.
--   Transfers  internal/bed/store/transfer.go and ValidateTransfer of sync/transfer.go.
--   Volumes    internal/bed/volumes.go, paths.go and room.go: `NormalizeVolumes`, `PathsOverlap`, `Rank`;
--              Mounts holds `NormalizeMounts` and `ValidateVolumeMounts`.
--   Sequence   internal/bed/lifecycle.go: `Sequence.Run`.
--   Admission  internal/bed/resource/admission.go and cpu_window.go.
--   Pillow     internal/bed/pillow/supervision.go and `groupReadiness` of manager.go.
--
-- How it is modelled. A section of code under a lock is one function of the state; what time.Now,
-- the kernel or a callback answers is an argument. Concurrency is a sequence of such sections, in any
-- order. Times are natural numbers of nanoseconds with 0 for the zero time; a duration that is not
-- positive is 0. The atomic int64 counters and the uint64 activity sequence wrap at 2^64. Memory
-- addresses are numbers; a new object takes a fresh one. Loops are recursions on their list or on the
-- number of turns that the code itself computes (attempts, candidates, slots), so no fuel is guessed;
-- the loop that makes room for a transfer runs on as many turns as there are records, which is enough
-- as each turn deletes one. A text is the list of its bytes; counts of fragments, files and bytes do not
-- wrap, nor does the product of a Bed limit and the pressure percentage. Times and generations are not
-- negative. Where Go ranges over a map the list's order stands for
-- any, and the answers of concurrent backends come in an order that is an argument.
-- Where an error's text is not read again it is a constructor. Runs of the Bed manager are bounded by
-- fewer than 2^64 sections where the activity sequence must not wrap around. The step relation allows
-- more than the code does: a resume, an abandoned snapshot or a changed readiness may come at any time.
--
-- Parameters: net, netip, strconv and strings, the kernel's listeners and its answer to a policy,
-- float64 arithmetic, the FNV hash, regular expressions, the removal of log files, and the hooks,
-- processes and copies that the code calls.
--
-- Not modelled: HTTP handlers, amenities, filesystems and isolation, executors, the formats of the
-- store's backends, configuration, tracing, the daemon's composition, the initialization of a Bed
-- before it is published, and its teardown after it left the map; these are I/O or glue, or are left
-- to later work.
pub mod Admission
pub mod Base
pub mod Execution
pub mod Manager
pub mod Mappings
pub mod Pillow
pub mod Policy
pub mod Ports
pub mod Sequence
pub mod Store
pub mod Transfers
pub mod Users
pub mod Volumes
