-- ===== src/Lib.antt =====
-- Serverless on edge: a platform that dispatches the calls of lambda functions to edge computers.
--
-- Routing models how a router picks a destination. Routing/Entry is the base class
-- `uiiit::edge::entries::Entry` (Edge/Entries/entry.cpp): the list of destinations of one lambda,
-- with the pure virtual functions of the class as the record `Policy`. Routing/LeastImpedance is
-- the derived class of Edge/Entries/entryleastimpedance.cpp; an iterator is the name of its
-- element, and a read through the iterator of an erased element is `undefined`. Routing/Entry/Runs
-- has the sequences of calls that change an entry.
-- Routing/Random and Routing/ProportionalFairness are the classes of
-- Edge/Entries/entryrandom.cpp and Edge/Entries/entryproportionalfairness.cpp. Routing/RoundRobin
-- is that of Edge/Entries/entryroundrobin.cpp: an iterator in the queue is the name of its element,
-- which of the elements that come first in the order of `QueueElement` the priority queue of the
-- standard library has on top is a parameter, and a call reads one time.
-- Routing/Table is `ForwardingTable` (Edge/forwardingtable.cpp): a map from lambdas to entries.
-- Its abstract view is a function from a lambda and a destination to a weight and a final flag.
--
-- Computing models the simulated computer. Computing/Processor is Edge/processor.cpp,
-- Computing/Container is Edge/container.cpp, with the lambdas of Edge/lambda.cpp in
-- Computing/Lambda. A container and the processor that it shares with others make the state `Host`;
-- `IsValid m n` says that the other containers hold `m` bytes and `n` running tasks.
-- Computing/Computer is Edge/computer.cpp: the containers of several lambdas, which refer to their
-- processors by name. Each public operation is one step, since it holds the lock, and so is the body
-- of the dispatcher's loop in Computing/Computer/Dispatch. Computing/Computer/Reach has the
-- computers that the steps reach in any order, and Computing/Computer/Names what becomes of the
-- names that configuring takes.
--
-- Messages is Edge/edgemessages.cpp and Edge/edgecontrollermessages.cpp: requests, responses and
-- lists of containers, with their forms on the wire, the messages of Rpc/edgeserver.proto and
-- Rpc/edgecontroller.proto, in Messages/Rpc. A map on the wire has no order: what arrives is any
-- list with the same lookups (`Carries` in Messages/Wire). Messages/Request/Hops sends a request over
-- any number of nodes. Computing and Controller use these types.
--
-- Controller is `EdgeController` (Edge/edgecontroller.cpp): which computers, routers and lambdas are
-- known. The derived class is a parameter: its state, and the function `notify` that each virtual
-- call becomes. Controller/Calls has the sequences of calls that a server makes.
--
-- Controller/Flat is the derived class of Edge/edgecontrollerflat.cpp; its remote calls to the
-- routers are parameters and may fail. Controller/Flat/Routers takes routers that always answer or
-- never do, and notes the remote calls in their order.
--
-- Estimating is the table of descriptors of Edge/destinationtable.h, for any descriptor
-- (Estimating/DestinationTable, Estimating/Values), and the choice of `UtilEstimator::best`
-- (Edge/utilestimator.cpp) in Estimating/Utilization.
--
-- Workflow is Edge/Model: the dependencies of states on functions (Workflow/States), chains of
-- functions (Workflow/Chain) and graphs of functions (Workflow/Dag, with `ancestors` and `callable`
-- in Workflow/Dag/Ancestors).
--
-- Storing is the server that keeps states of applications by name and its client,
-- Edge/stateserver.cpp and Edge/stateclient.cpp; Storing/Runs has the sequences of calls, and what
-- they answer by the history of the calls alone.
--
-- An operation returns its `Outcome` beside the new state: a value, an exception, or `undefined`
-- where C++ has no defined behaviour; a state is returned with an exception too, since fields
-- changed before the throw stay changed. Floating-point numbers are the parameter `Float`, with the
-- laws of an order as hypotheses where a theorem compares weights; whole numbers show that they can
-- be met. Words wrap around at `2 ^ 64`. All loops are structural recursion,
-- but for two, which are on fuel. In `Dag::ancestors` a call stack that is exhausted is `undefined`,
-- and fuel beyond the rank of the function is enough when the graph has no cycle. It reads an empty
-- row for a function that the graph does not have, which the source does not check. The loop of
-- `Computer::dispatchCompletedTasks` has as much fuel as the container has tasks, which is enough.
-- A mutex makes each operation one step, and is left out. `std::map` is an association list in the
-- order of its keys.
--
-- Not modelled: clocks, random numbers and averages (git submodules), gRPC, threads, log messages,
-- printing and JSON; the hierarchical and ETSI controllers, the processing time estimators and the
-- local optimizers; the other clients and servers, the simulators and the executables.
pub mod Computing
pub mod Controller
pub mod Estimating
pub mod Messages
pub mod Prelude
pub mod Routing
pub mod Storing
pub mod Workflow
