-- ===== src/Lib.antt =====
-- josemar-assistente: the parts of the assistant that keep state, as functions and theorems.
--
-- aux-ml/app is the auxiliary service that queues machine-learning jobs and runs them one at a
-- time. AuxMl/Jobs models its queue and job store (aux-ml/app/jobs.py): each method of
-- `JobScheduler` holds one condition for its whole body, so it is one function from the old state
-- to its result and the new state, in AuxMl/Jobs/Scheduler; AuxMl/Jobs/Record has the job record
-- and the transition table. Identifiers that the source draws at random and the present time are
-- arguments. A method that would wait returns `none` and the state in which it waits.
-- AuxMl/Registry has the models (aux-ml/app/model_registry.py), and AuxMl/Service the service around
-- the queue (aux-ml/app/service.py, and the HTTP status of a cancellation from aux-ml/app/main.py).
-- In AuxMl/Service/Endpoints are submission and cancellation, in Models the loading and unloading
-- of models, in Worker the run of one job up to its `finally`. Coroutines interleave at awaits: a
-- function takes as `others` what other coroutines do to the service at each numbered await, and as
-- `replies` what the router and the adapters answer. AuxMl/Service/Live says what a request may do
-- while a job runs, and Served reads the cancellation as such a request. `task.strip().lower()` is an
-- argument, and the texts of some error messages are shortened.
--
-- Not modelled: parsing the registry file, the router's HTTP client, the adapters, `start`,
-- `stop` and the outer worker loop, which only handle asyncio tasks.
--
-- scripts/vault_recovery_restore_core.py installs a recovered vault and its .gbrain beside the live
-- ones. Vault/Install/Disk has the two places, the journal and the durable actions on them, between
-- any two of which a crash can come; Swap has the swap of one tree as the sequence of its actions,
-- with the outcome of the root's rename as an argument; Rollback has `_rollback_tree`. A tree is a
-- function from the names of its top-level entries to their contents, the directory of the
-- installer itself aside, and the listings that the code reads from the disk are arguments.
--
-- Not modelled: reading and validating the handoff, the copy of the bundle to the staged trees,
-- and failures of the rollback's own renames.
--
-- scripts/tasknotes_mcp_core.py reconciles the links of the daily notes with the tasks.
-- Tasknotes/Reconcile/Net has the net change of one task between two commits, Compose the
-- composition of all net changes into ordered steps, and Batch the batches of a bootstrap, for
-- transitions of any type with a target. Links reads off the states which link each asks for;
-- Placed and Composed follow the composition, Places and Targets the batches through the loop. How a
-- date resolves to a note is an argument.
--
-- Not modelled: enumerating the candidates, git, and the writing of the notes.
--
-- scripts/josemar_skill_state.py keeps skill toggles and the command allowlist in sidecar documents
-- and projects them onto the Hermes configuration. SkillState/Normalize has the canonical form of
-- the toggles, Config the projections and the sidecar, Allowlist the strict documents, Nested the
-- writes at nested keys and Policy the skill policy. Canonical, Normal, Sorted, Allowed, Strict,
-- RoundTrip and Reads have what is needed of them. A configuration is the mapping that the YAML file
-- holds, and `str`, `str.strip`, `json.loads` and `json.dumps` are arguments. Fallback has the merge of the
-- fallback chain and Models the overlay of models.yaml and Restore the rollback to the template;
-- Select, Merge, Writes, Deletes, Owned and Overlay have what is needed of them. Schema has the
-- validation of models.yaml, with the regular expressions for secret-looking keys as an argument,
-- and Checks, Accepted, Secrets and Validated what it gives.
--
-- Not modelled: files, locks and the migration at start-up; Python's floats, and keys that are no
-- texts.
--
-- `TaskNotesEngine` of scripts/tasknotes_mcp_core.py changes tasks. Tasknotes/Engine/Effects has the
-- form of its methods: a function of a world and of the events so far, which answers or raises.
-- Services has the calls of gbrain, git, the disk and the text of a note as arguments, Validate and
-- Requests the checks of the arguments, Page the decoding of a page and the rewriting of its
-- frontmatter, Profile the reading of the plugin's profile, Prepare what runs before a capture, Publish
-- the capture and what follows it, Links the daily notes, and Operations with its children `create`,
-- `update`, `complete`, `archive`, `add_tag`, `remove_tag` and `delete`. Account says which events each
-- answer stands for; Marks, Observed, Silent, Guards, Captured, Linked, Accounted, Written and Deleted
-- follow the events through the code, Reported those of the daily notes, Refused the recovery marker, Planning
-- the rewritten frontmatter, Loaded, Uniqueness, Distinct and Promised the accepted profile, and Checked
-- the accepted arguments. The record of events is the model's own, the source keeps none: an event is
-- logged by what a service answers to a call, or by a comparison of such answers. The writing of the
-- recovery marker may fail, and the code goes on.
--
-- Not modelled: `get` and `list`, the lock, the test hook before a capture, and the services.
--
-- scripts/mnemosyne_backup_core.py keeps the backup generations of Mnemosyne on a staging volume.
-- Mnemosyne/Prune has the ledger of uploaded generations and the pruning of old ones, over the
-- entries of the directory; Retained counts the newer ones. The form of a generation id is an
-- argument.
--
-- Not modelled: the export of a generation, its manifest and its verification.
--
-- Base has the shared helpers: tests on numbers, dictionaries in insertion order, JSON values.
pub mod AuxMl
pub mod Base
pub mod Mnemosyne
pub mod SkillState
pub mod Tasknotes
pub mod Vault
