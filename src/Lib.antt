-- ===== src/Lib.antt =====
-- A verification library for the token-ring node: processes that pass a token round a logical ring
-- over UDP, and that let new processes join.
--
-- The program. `main` (src/core.c) calls ring_run (src/ring.c), a loop that resends join
-- acknowledgements, prunes pending joins, sleeps in select, runs the two timers of the join state
-- machine (src/join_fsm.c), and then handles unicast messages (src/unicast_dispatch.c over
-- src/unicast.c over the reliable transport src/rudp.c), broadcasts (src/broadcast.c, sent to the
-- targets of src/broadcast_targets.c), a message from the fifo (src/cli.c, filled by src/writer.c)
-- and the token. The join tables (src/join.c) are part of the node's state.
--
-- A join. A new node broadcasts JOIN_REQUEST; every node keeps it as pending. The holder of the token
-- starts the oldest pending join, is its coordinator, and sends JOIN_ACCEPT to the joiner and to its
-- own predecessor; both change their routes and answer JOIN_ACK. With both answers the coordinator
-- takes the joiner for its predecessor, raises the topology version and broadcasts JOIN_COMMIT.
--
-- Which file models which part:
--   Base, Cstr: results, 32-bit and 64-bit counters, arrays as lists; strncmp, strcmp and strncpy.
--   Join: src/join.c and the types of src/include/join.h. Join/Slots: counts and the scan for
--     the oldest entry; Join/Invariant: well-formed tables; Join/Pending and Join/Leaving: the
--     pending table by names; Join/Completed: the bounded log.
--   Wire: the messages as bytes, from src/include/join.h, unicast_msg.h and token.h.
--   Node: the state of a node, src/include/ring.h, route.h and token.h.
--   Link: what the ring asks of the layers below it, as an interface over a state of their own.
--   JoinFsm: src/join_fsm.c and the two senders of src/broadcast.c; JoinFsm/Tick, JoinFsm/Complete.
--   Dispatch: src/unicast_dispatch.c; Dispatch/Tokens, Dispatch/Accept and
--     Dispatch/Acks follow a message from its sender to its receiver.
--   Broadcast: handle_broadcast of src/broadcast.c; Broadcast/Requests, Broadcast/Commits.
--   Cli: src/cli.c and src/writer.c; Cli/Laws.
--   Deadline: set_select_timeout of src/ring.c.
--   Ring: src/ring.c, a round of ring_run as one function; Ring/Invariant and Ring/Rounds: every run,
--     as an inductive relation; Ring/Tokens, Ring/Handoff, Ring/Timeouts, Ring/Stops.
--     Ring/Preserved: the laws of the handlers as an interface, and the round over it;
--     Ring/Rounds fills it for the invariant, Ring/Identity for a node's own route and membership.
--   Setup: fill_config_from_env and gen_request_id of src/ring.c; Setup/Laws.
--   Rudp: src/rudp.c. Rudp/Tables: peers and stored frames; Rudp/Net: the operating system as a
--     function of the number of the call; Rudp/Wait: waiting for a frame; Rudp/Protocol: sending
--     and receiving; Rudp/Protocol/Exchange and Rudp/Protocol/Loss: both ends;
--     Rudp/Protocol/Backlog: stored messages.
--   Unicast: src/unicast.c; Unicast/Laws.
--   Targets: src/broadcast_targets.c and send_to_all_targets of src/broadcast.c; Targets/Laws.
--   Boot: how a node opens its sockets and its fifo, in src/unicast.c, src/broadcast.c, src/cli.c and
--     ring_initialize, and main of src/writer.c; Boot/Opened: which descriptors are open;
--     Boot/Fifo: from the writer to a node.
--   Program: main of src/core.c and ring_run as a whole; Program/Exits.
--   Cluster: several nodes, as a step relation over whole rounds of the loop; Cluster/Members;
--     Cluster/Schedule: runs by schedule.
--   Samples: nodes and layers for the Examples modules, where the theorems are applied.
--
-- State and operations. A C function that changes a struct is a function to the new struct, with the
-- returned 0 or -1 as `ok` or `err`; a function that calls the layers below takes their state and
-- returns the new one. Flags are Booleans, a char array is a list of bytes, and a counter wraps where
-- C wraps it. time_t is a number of seconds, with differences written as sums; where the code
-- casts a difference to int it is taken modulo 2^32.
--
-- Bounds and fuel. The tables have the sizes of src/include/consts.h and src/rudp.c, but the theorems
-- on rudp.c hold for tables of every size. The loops of rudp.c and the loop over unicast messages
-- take fuel, and `none` says that it ran out. A wait needs as much as there are calls of the system
-- until its timeout is over, a send more than its limit of attempts; a send without a limit may need
-- more than any fuel.
--
-- Not modelled: logging (src/logger.c), the pauses of sleep and usleep, and the scripts and container
-- files. The system calls that open, bind and close descriptors, getifaddrs, inet_pton, getaddrinfo,
-- the environment and /dev/urandom are parameters. A round of the loop is one step of a cluster, so
-- what another node does while a send waits inside a round is not followed. The layers below a node
-- are the interface Link; it is not filled with src/unicast.c over src/rudp.c, where a token send
-- need not end.
pub mod Base
pub mod Cstr
pub mod Join
pub mod Wire
pub mod Node
pub mod Link
pub mod JoinFsm
pub mod Samples
pub mod Dispatch
pub mod Broadcast
pub mod Cli
pub mod Deadline
pub mod Ring
pub mod Setup
pub mod Rudp
pub mod Unicast
pub mod Targets
pub mod Boot
pub mod Program
pub mod Cluster
