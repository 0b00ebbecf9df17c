-- ===== src/Lib.antt =====
-- AgentRL trains and evaluates language model agents against environments that run in workers.
--
-- The parts. A controller (Go, not modelled) stands between clients and task workers. A task worker
-- (worker/) runs samples of a task: `start_sample` opens a session and starts the task's coroutine,
-- `interact` hands the agent's messages to it, and both wait until the coroutine hands its history
-- back. The evaluator (eval/) plays the agent with a model: it starts a sample, and answers the
-- worker's messages until a response finishes. The trainer (trainer/) lets an engine act in many
-- environments at a time (the agent loop), whose workers put the finished samples into a bounded
-- buffer (the task manager), from where the training steps take them in groups; a reader-writer lock
-- keeps rollouts and updates of the weights apart.
--
-- Files, and what they are about:
--   Common           Boolean tests, lists over native numbers, equality as an interface, association
--                    lists for dictionaries (Table), integers, divisibility, sums over tasks (Family).
--   Trainer/Buffer   trainer/src/agentrl/trainer/components/buffer.py. `add` and `get` are cut at
--                    their awaits; Run interleaves producers and consumers; Invariant, Order and
--                    Delivery are about every reachable buffer, Service about what users rely on.
--   Trainer/RwLock   trainer/src/agentrl/trainer/utils/aio_rwlock.py. Steps has `n` tasks over one
--                    lock, interleaved; Invariant counts where they stand; Safety, Wakeup and
--                    Progress are about exclusion, notifications and deadlock.
--   Trainer/TaskManager  trainer/src/agentrl/trainer/components/task_manager.py, LocalTaskManager:
--                    its queue, its workers, its count of pending items, and its shutdown.
--   Trainer/AgentLoop  trainer/src/agentrl/trainer/agentic/loops.py. The environment, the engine, the
--                    tokenizer and the parser of tool calls are an interface over a state of the
--                    world; Segments has the conversations that a sample is made of, Parts and Shape
--                    are about the sample, Retry about the retries.
--   Trainer/Balanced  trainer/src/agentrl/trainer/agentic/data_provider.py: BalancedDataset.
--   Worker/Session   worker/src/agentrl/worker/task.py and typings.py: SessionController and Session.
--                    Each function is what runs between two awaits; Protocol interleaves requests
--                    and the task, and Delivery follows the items from the task to the responses.
--   Worker/TaskWorker  worker/src/agentrl/worker/task_worker.py: the requests and session_map, the
--                    map of the sessions; Sessions is about the map, Responses about what is sent.
--   Worker/Provider  worker/src/agentrl/worker/environment/state/_base.py: the interface of the state
--                    providers, with what the environments rely on; of its calls only an allocation
--                    may fail, and a block under a lock is one step.
--   Worker/State     worker/src/agentrl/worker/environment/state/local.py: which sessions use which
--                    container; History replays calls against what their history says, Counting
--                    makes it a provider.
--   Worker/Etcd      worker/src/agentrl/worker/environment/state/etcd.py: each method as the tree of its
--                    requests (Calls, Locks, Containers, Sessions), over an interface for the etcd
--                    service with what its documentation says (Service; Memory is a store that does
--                    it, for the tests). Keys and Ranges are about the keys, Numbers about the text of a count,
--                    Sending and Held about what is sent and what it does to a lock; Locking
--                    interleaves sessions that take a lock with all other methods, Counting
--                    runs of `_increment_uses` with each other.
--   Worker/Docker    worker/src/agentrl/worker/environment/docker.py over interfaces for the daemon, the
--                    delegation (_delegation.py) and the provider: Containers and Sessions are the
--                    code, Triples, Creating and Settling how actions are reasoned about, Steps what
--                    workers interleave, Labels, Starting, Ending and Handlers lead from the handlers
--                    to steps, Rounds is about the loop of start_session, Freeing and SessionEnd
--                    about the end of a session.
--   Worker/K8s       worker/src/agentrl/worker/environment/k8s.py: the cache of the shared pods and the
--                    events of the watch; Cached and Latest compare it with the last event about each pod,
--                    Rounds adds the listings between rounds of the watch, Offers is about the pods
--                    that a session may get.
--   Worker/Config    worker/src/agentrl/worker/config/loader.py: the merge of configurations, and the
--                    keys `default` and `overwrite` (Merge, Precedence); Files has the files, their imports and the
--                    overrides, Restoring and Circles are about imports in circles.
--   Eval/Types, Eval/Workflow  eval/src/agentrl/eval/session/types.py, workflow.py and
--                    controller.py: one sample from its start to its result, with the slices of its
--                    history (Slices), a log of what passes to and from the server (Log, Settled),
--                    and the fuel of its loop (Fuel).
--   Eval/Runner      eval/src/agentrl/eval/session/runner.py: the samples that are gathered, the queue and
--                    its workers (Steps), and what has a result when they have ended (Complete).
--   Eval/Convert     eval/src/agentrl/eval/convert/: DataUrl has the string operations, Response and
--                    Anthropic the conversions of messages.py from chat completions to one of the
--                    formats and back, Tools those of tools.py, Records the records and _base.py.
--   Eval/Tokens      eval/src/agentrl/eval/session/tokens.py: the token counter.
-- A module's Tests hold runs at concrete inputs and an instance of each result.
--
-- Conventions. Coroutines run without interruption between two awaits, so a step of an interleaving
-- is what runs between two awaits; Option or an own type says that a step waits, returns or raises.
-- Dictionaries are association lists in which a key stands once, in no order that matters. Rewards and
-- log probabilities, which the code only passes on, compares with 1 or adds, are integers in place of
-- floats; Python's integers that are never negative are natural numbers. JSON texts are strings. In
-- Worker/Etcd a string is the list of its bytes.
--
-- Bounds. The evaluator's loop is on fuel, since it lasts as long as the server wants:
-- Eval/Workflow/Fuel.antt gives the fuel for a server with a bound on its responses. The loops of
-- the Docker environments have bounds as arguments: for the rounds in which a container is looked
-- for, of which Worker/Docker/Rounds.antt shows that two are enough, for the looks for health,
-- which wait for the daemon, and for the depth to which containers depend on each other. The
-- imports of configuration files are on fuel, for which Worker/Config/Circles.antt shows that one
-- more than the number of files is enough. The retries of the agent loop (`max_retries`), its turns
-- (`max_turns`), the tries to start a sample (10), the attempts of a call of the daemon or of
-- etcd (2), of a renewal of a lease (3) and of an increment (16) are bounded in the code and are
-- structural recursion.
--
-- Not modelled: the controller and its dashboard; the engines, tensors, losses and checkpoints of
-- the trainer, which are numerical code over torch, sglang and NCCL; of the worker, its
-- sessions in Kubernetes, commands and shells in containers, and its state in Redis and Consul, which
-- drive services; its gRPC transport, snapshots and traces; the clients, the files of the stores,
-- the events and the terminal of the evaluator; scripts and examples.
mod Common
pub mod Trainer
pub mod Worker
pub mod Eval
