-- ===== src/Lib.antt =====
-- The preemptive executor for ROS 2: a verification library.
--
-- The program runs the callbacks of ROS 2 nodes on groups of real-time threads. A YAML file names
-- chains of callbacks; the callback registry builds a graph from them and assigns each callback to a
-- thread group with a priority and a number of threads; the executor makes a worker group for each,
-- waits for work, and hands ready subscriptions and timers, wrapped in bundles, to the worker groups'
-- queues. A memory strategy holds the handles that the executor waits on.
--
-- Which file models which part (paths from the repository's root):
--
--   Strategy and below   include/preemptive_executor/rt_allocator_memory_strategy.hpp: the class
--                        RTAllocatorMemoryStrategy as a record of its vectors, a function for each
--                        method. Strategy/Next: the get_next_... functions, which share one loop.
--                        Strategy/Ready: take_ready_handles. Strategy/Waiting: add_handles_to_wait_set.
--   Registry and below   include/preemptive_executor/callback_registry.hpp, src/callback_registry.cpp.
--                        Registry: the maps of CallbackRegistry. Registry/Build: the constructor.
--                        Registry/Traverse: recursive_callback_traversal. Registry/Priorities and
--                        Registry/Threads: the later loops of callback_threadgroup_allocation and
--                        recursive_threadgroup_traversal. Registry/Export: export_timing_information.
--   Chains               include/preemptive_executor/yaml_parser.hpp: the chains.
--   Parser and below     include/preemptive_executor/yaml_parser.hpp, src/yaml_parser.cpp: loading and
--                        parsing the file with the chains.
--   Bundles and below    src/bundled_subscription.cpp, src/bundled_timer.cpp and their headers: taking
--                        a message and running the callback.
--   Executor and below   include/preemptive_executor/preemptive_executor.hpp,
--                        src/preemptive_executor.cpp. Executor: add_node and
--                        classify_callback_groups. Executor/Spawn: spawn_worker_groups and
--                        stop_non_rt_executor. Executor/Populate: populate_ready_queues, with
--                        Executor/Deliver for one group of its last loop. Executor/Spin: the whole
--                        state, the constructor, load_timing_info and spin.
--                        Executor/Spin/Known: what is documented of rclcpp's
--                        add_callback_group_to_map.
--   Workers and below    include/preemptive_executor/worker_group.hpp, src/worker_group.cpp: a thread's
--                        steps through worker_main, and the dispatcher's steps through the last loop
--                        of populate_ready_queues (src/preemptive_executor.cpp) for one group.
--                        Workers/Trace: their interleavings, with the constructors and the destructor.
--   Ros                  what the code sees of rclcpp's objects.
--   Common               shared notation, lists, association lists, exceptions and state.
--
-- How the code is modelled. An address, a thread group's id or a number is a natural number; fixed
-- widths wrap where the code counts (`% 256`, `% 65536`, `% 2 ^ 64`), and the ids of thread groups,
-- `int` in the code, do not. A null pointer is `none`. A throw is an outcome `err`, and a routine
-- that writes to a state keeps what it wrote before the throw. Undefined behaviour (a read out of
-- bounds, a null dereference, a division by zero) is an outcome of its own. A hash map is an
-- association list; the order in which the code walks it is a parameter (Common/Iteration). The two
-- recursions of the registry take fuel for their depth. The traversal of callbacks has one unit
-- more than there are callbacks, which is enough, since a call goes on only at a callback that had
-- no thread group. The walk through the thread groups has no bound in the code when they form a
-- cycle, and else needs as much as the longest path has thread groups; its fuel is an argument.
-- Threads are modelled by the steps between two accesses to what they share; an interleaving is a
-- list of who makes the next step, of any length. A worker's `failed_attempts` are counted as in
-- the code; pauses and clocks are left out.
--
-- Parameters. rclcpp's and rcl's objects and functions: the entities that collect_all_ptrs visits,
-- the lookups by handle, timer calls, takes, the wait set, what waitables report, and
-- add_callback_group. These may throw: a take anything, of which try_take catches an RCLError; a
-- timer's call, wait_for_work, add_callback_group and the functions that add a guard condition or a
-- waitable to a wait set any exception (`rclcpp_exception`). The functions that create, handle and
-- return messages, the callbacks, and the creation of threads and of the other executor are taken to
-- throw nothing, and memory to suffice but for the queue's. The standard library's order of hash
-- containers. yaml-cpp's nodes and conversions (Parser). The lock-free queue (Workers): what it
-- counts as its elements, with a dequeue that may fail though there are some.
--
-- Turns. The loop of spin runs over a list of turns of any length. A turn is a routine on the whole
-- state, which may throw: one wait_for_work (rclcpp's) with all that other threads do until it
-- ends. In the executor's model populate_ready_queues makes its dispatch without a step of a worker
-- group's thread in between; the worker groups' own steps, and the dispatch of one group's bundles
-- step by step among them, are in Workers. A run whose turns are used up is still spinning, and
-- counts as `unfinished`.
--
-- Simplifications of Workers and Executor. The counter of pending bundles, an atomic<int>, and the
-- semaphore, whose maximum is 50000 permits and whose release beyond it is undefined, have no bound.
-- The result of pthread_setschedparam, which the code ignores, is taken to be success. The
-- destructor's release counts from the time the executor has stopped spinning: a worker group that
-- spawn_worker_groups makes for an id that is taken, and destroys at once while the executor spins,
-- is left out, and so is what its threads do. The conversion of a thread count that does not fit a
-- uint16_t, undefined in the code, is the remainder.
--
-- Not modelled: the lock-free queue (a copy of another project's library), allocators, logging and
-- the output to std::cout, and the build files.
pub mod Bundles
pub mod Chains
pub mod Common
pub mod Executor
pub mod Parser
pub mod Registry
pub mod Ros
pub mod Strategy
pub mod Workers
