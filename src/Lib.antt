-- ===== src/Lib.antt =====
-- Verification of ibv, messages between two processes over RDMA.
--
-- The program. A connection (src/connection/conn.rs) sends a message by copying it into a piece of
-- its send buffer, reserving a piece of the peer's receive buffer, and posting an RDMA write with an
-- immediate value. The network card puts the bytes at their place and a completion into the peer's
-- queue; the peer's polling task (src/connection/daemon.rs) reports length and immediate value to
-- the receiver, which reads the message where it must lie. Released lengths go back as immediate
-- values of messages of the other direction. The three ring buffers (src/types/mr.rs) keep their
-- pointers each for itself: nothing but lengths is ever sent, so sender and receiver must compute
-- the same places.
--
-- Shared modules.
--   Prelude: numbers, lists, Boolean tests, machine words with their wrap written out.
--   Defaults: the constants of src/types/default.rs.
--   Memory: the bytes of a process, with `load` and `store`.
--   Ring: the abstract ring, the specification of all three buffers: the live messages, laid out
--     in one stretch or two, with the moves that keep the layout.
--   Channel, Verbs: interfaces for tokio's bounded channel and for the verbs of libibverbs, each
--     with a value, Channel.Bounded and Verbs.Model.
--
-- The parts of the program.
--   Mr.Region: src/types/mr.rs, `MR`, `RemoteMR`, `RemoteBuf`, `LocalBuf`.
--   Mr.RemoteBufs: `RemoteBufManager`: `new`, `update`, `alloc` are the methods; a `Turn` gives the
--     updates that other tasks make in one round of a waiting loop.
--   Mr.SendBufs: `SendBuffer` and `MyQueue`: `alloc`, `add_to_release`, `push`, `pop`; `task_step`
--     is the task that `SendBuffer::new` spawns, and `event` adds the daemon's clearing of a flag.
--   Mr.RecvBufs: `RecvBuffer`: `new`, `read`, `notify_release`.
--   Wr: src/types/wr.rs. Cq: src/types/cq.rs. Qp: src/types/qp.rs: the requests in Qp,
--     the states, `handshake` and the exchange of regions in Qp.Setup, over the interfaces of
--     Qp.Attributes, which Qp.Model and Qp.Codec fill.
--   Daemon: src/connection/daemon.rs, `polling`, and `notify` in Daemon.Notify.
--   Conn: src/connection/conn.rs, `Conn`: `send_msg` in its three stages `reserve`, `admit` and
--     `post`, `recv_msg`, `release`, `get_release_length`.
--   Link: one direction of a connection as a step relation: sending, receiving, releasing, and the
--     arrival of a report, in any order.
--   Net: the detailed level below Link: two `Conn` with their release and polling tasks, the send
--     queue and the transfers of the network cards. A step is a stage of `send_msg`, a call of
--     `recv_msg` or `release`, a step of a task, or a transfer. Net.Outgoing to Net.Sender are about
--     the messages in the send buffer, Net.Simulation is the relation to a link, Net.Local to
--     Net.Returning take the steps, and Net.Refines puts them together. Net.Refused is about a write
--     that the device refuses, and Net.Draining about the way of a posted message to its answer.
--   Life: src/types/device.rs, src/types/pd.rs, and the making and dropping of `CQ` and `QP`, as a log
--     of the calls that make and destroy objects, with the count of the `Arc`s of a device; Life.Dropping
--     is the drop of a `Conn`.
--   Device: the attributes of port and device, and what a queue pair announces of them.
--   Examples: examples/client.rs and examples/server.rs, as a step relation over two links, one for
--     the requests and one for the responses, with the counters `sending` of both ends: ClientStep and
--     ServerStep are the parts of their tasks between two waits. Examples.Flat is a link in which no
--     message wraps, Examples.Flow one direction with its receiving task. Examples.Benchmark is the
--     server task of examples/benchmark.rs and the durations that its client adds up, Examples.Rounds
--     the loop of its client.
--   Connect: `exchange_recv_buf`, `connect`, `run` and src/connection/server.rs.
--
-- Conventions. A `u32` or `u64` is a number, and its additions are taken modulo the word where the
-- source adds (`add32`, `add64`, `sub64`), as in a release build. A panic is `none`. A waiting loop
-- takes a list with one entry for each round, and is `none` where it still waits when the list ends:
-- the list is the bound of the loop, and the theorems on waits hold for lists of any length. Relaxed
-- atomics are read as sequentially consistent, and a loop's test is two loads.
--
-- The steps of Link, Net and Examples are those of messages shorter than 2 ^ 32 bytes, and of calls of
-- the allocators that return in their first test with nothing run between its two loads. What happens
-- where an update runs between these loads is the matter of Mr.RemoteBufs.Race, and a longer message
-- that of Conn.Overrun; a program that does either leaves these three relations.
-- Net assumes also that the device takes each write (Net.Refused is about one that it refuses), that
-- writes are made in the order of the send queue, and that the address of a new flag is none that is in
-- use. A call that waits is the steps of others and then its own, where it no longer waits; the theorems
-- on waiting loops say when that is so. `run` takes the answers of `accept` as a list.
--
-- In Examples a call of `send_msg`, `recv_msg` or `release` is one step of a link; that the stages
-- of these calls are steps of a link is what Net shows for one direction.
--
-- Not modelled: the bodies of rdma_sys and tokio, what a detached task does behind the drop of its
-- connection, the rates in `f64` of the benchmark, and printing and logging.
pub mod Prelude
pub mod Defaults
pub mod Memory
pub mod Channel
pub mod Ring
pub mod Mr
pub mod Link
pub mod Verbs
pub mod Wr
pub mod Cq
pub mod Qp
pub mod Daemon
pub mod Conn
pub mod Net
pub mod Examples
pub mod Life
pub mod Device
pub mod Connect
