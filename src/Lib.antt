-- ===== src/Lib.antt =====
-- A model of the core of AniToolsPlatform: the runtime that builds a pipeline of modules out of
-- groups, connects their ports and runs it on threads, the documents that describe a pipeline, and the
-- project of the studio that edits such a document.
--
-- Parts and interaction. A module has input and output ports. An output holds the list of the inputs
-- subscribed to it and hands every value that is written to each of them, firing the notifier of the
-- input's thread. Modules are the leaves of a tree of groups. The runner lays the tree out on threads,
-- brings it up and down through the cascades of the groups, and runs a loop on each thread, which makes
-- passes over the groups of that thread and sleeps when nothing happens. Modules find each other's
-- services in a directory by name and interface. Versions identify modules and interfaces. A document
-- is validated, decoded into a typed configuration and encoded again; the studio edits the typed form
-- and keeps encoded snapshots of it as the history.
--
-- Files:
-- - Prelude and its children: shared names, lists over native numbers, texts as lists of bytes, results
--   of functions that may throw, association lists, signed counts.
-- - Version: include/atp/support/version.hpp (version, to_string, detail::parse_version).
-- - Io/Input: include/atp/io/input.hpp and queued_input.hpp (input, queued_input); Io/Queue and its
--   children are about runs of the queue.
-- - Io/Output: include/atp/io/output.hpp, input_base.hpp and include/atp/support/type_compare.hpp
--   (output, input_base::deliver, same_type).
-- - Services: include/atp/module/service_directory.hpp (service_directory).
-- - Runtime/Tree, Runtime/Cascade, Runtime/Iterate: src/runtime/include/atp/runtime/group.hpp (group
--   and its initialize, start, stop, iterate, set_metrics_enabled, child_counters).
-- - Runtime/Compose and its children: the same file (add, expose_input, expose_output, connect and the
--   destructor of group), with io_registry::alias of include/atp/io/io_registry.hpp.
-- - Runtime/Runner and its children: src/runtime/include/atp/runtime/pipeline_runner.hpp: Runner is the
--   configuration (add_thread, assign), Layout the maps (collect_groups, build_thread_map, map_ports,
--   validate_connections, apply_detach, launch_threads), Run the control (start, stop, wait,
--   capture_error), Loop the thread loop (run_loop, iterate_units).
-- - Runtime/LogRing and its children: src/runtime/include/atp/runtime/log_ring.hpp (log_ring: write,
--   drain), one step for each access to shared memory.
-- - Runtime/CommandQueue and its children: src/runtime/include/atp/runtime/command_queue.hpp
--   (command_queue: call, run_pending, close), one step for each stretch under the lock.
-- - Config/Node, Config/Read: include/atp/config/node.hpp and read.hpp (node, value_or).
-- - Config/Path and its children: src/runtime/include/atp/runtime/config_path.hpp (find_path, at_path).
-- - Config/Model and its children: src/runtime/include/atp/runtime/config_model.hpp (encode, decode).
-- - Config/Validate and its children: src/runtime/include/atp/runtime/config_validator.hpp (validate):
--   Values, Shared, Parts and Document are its checks, the others compare it with decode.
-- - Studio/NodeRef, Studio/Lookup, Studio/Cascade: src/studio/include/atp/studio/node_ref.hpp (node_ref),
--   node_lookup.hpp (find_group, check_name, unique_child_name, clone_child) and expose_cascade.hpp
--   (take_exports_of, cascade_lost_aliases, rewrite_alias_above).
-- - Studio/Project and its children: src/studio/include/atp/studio/project.hpp (project): the state,
--   snapshot, undo, redo and edit_scope; Children, Moves, Ports, Settings and Threads are the editing
--   operations, Actions puts them into one type, Recorded, History and Valid are about all of them.
-- - Studio/Threads and its child: src/studio/include/atp/studio/thread_resolve.hpp (resolve_thread,
--   groups_on_thread).
-- - Tests and its children: runs on small inputs.
--
-- State and time. An object is known by its address, a number. A C++ function that may throw is a
-- function into Result, and the state that it leaves on a throw is written out. An operation that holds
-- a lock throughout is one step; a history is a list of steps. What a module answers, its plugin's
-- code, is a parameter that may depend on all the calls before (Modules, Execution). The 64-bit counters
-- wrap around. The decimal digits of a number are produced on fuel, one more than the number, since a
-- digit is taken off in each round. The loops of a document path, of a free name, of a cascade and of a
-- thread's ancestors run on fuel as well: the length of the path and one, the children and one, and the
-- length of the group's path in both of the last. Everything else recurs on its data: the tree, a text,
-- or the list of what happens. A thread loop runs over the list of what reaches it from outside, one
-- entry for each turn, so that every prefix of an endless run is covered.
--
-- Simplifications. The lists of inputs and hosts that the runner has wired stand for the wiring itself,
-- so that uninstall_notifiers, which takes each entry back, empties them. A writer of the log ring that
-- loses a race loads the slot's sequence and the tail again in one step. The suffix of a free name is a
-- number without a bound, where the source counts in an int. The positions of a project are a list in
-- the order of insertion, where the source walks a map by its keys: it matters only where a rename or a
-- move brings two positions to one path.
--
-- Not modelled: the locks and memory orders under an operation (the log ring is taken to be
-- sequentially consistent), the conversion of argument types and the choice between copying and moving a
-- value, failures to allocate or to create a thread (so that installing the notifiers does not throw),
-- the JSON, file and socket code, the plugin loader, the script bridges, the MCP server, and of the studio
-- the selections (copy_children, paste), the session and the user interface. A position on the canvas is
-- a pair of bit patterns, on which nothing is computed.
pub mod Prelude
pub mod Config
pub mod Version
pub mod Io
pub mod Services
pub mod Runtime
pub mod Studio
pub mod Tests
