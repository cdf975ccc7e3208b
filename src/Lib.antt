-- ===== src/Lib.antt =====
-- A verification library for SMOS, a multiserver operating system on the seL4 microkernel.
--
-- The root server (crates/root_server) owns the machine: it keeps a table of physical frames, hands
-- out capability slots and badge bits, and answers the invocations of the processes. A process that
-- serves others links crates/smos-server: it decodes the badge of what it receives, keeps the
-- resources of its clients in tables of handles, and writes replies and errors that its clients
-- read with crates/smos-common. Bit sets (crates/bitfield) are under several allocators.
--
-- Where each part is modelled:
--
--   Base            lists, results, and `Run`, in which a panic is a value
--   Word            64-bit words: bits, trailing zeros, masks
--   Bitfield        crates/bitfield/src/lib.rs: bf_set_bit, bf_clr_bit, bf_get_bit, bf_first_free
--   UserCspace      crates/smos-cspace/src/lib.rs: SMOSUserCSpace
--   Common          crates/smos-common/src/invocations.rs and error.rs: labels and their codecs
--   Server          crates/smos-server/src: error.rs (Errors), handle.rs, handle_capability.rs and
--                   handle_arg.rs (Handles), event.rs (Event), ntfn_buffer.rs (NtfnBuffer) and
--                   reply.rs (Reply)
--   RootServer      crates/root_server/src: frame_table.rs (FrameTable, and FrameTable/Alloc for
--                   alloc_frame), irq.rs (Irq), window.rs and the windows of proc.rs (Windows),
--                   cspace.rs (Cspace), clock.rs (Clock), ut.rs (Untyped, and Untyped/Alloc for
--                   alloc), mapping.rs (Untyped/Mapping), the objects of util.rs (Untyped/Retype)
--   Syscall         the messages between clients and servers: the calls of
--                   crates/smos-common/src/syscall.rs (Client, and Call for all of them as one
--                   type), string.rs (Text) and sddf.rs (Invocation); of crates/smos-server/src,
--                   syscalls.rs (Invocation, Decode, GetWith), handle_arg.rs (Handle) and the
--                   decoding and clean-up of event.rs (Serve). Transfer says what the kernel does
--                   to a message on its way
--   Tests           runs at concrete inputs
--
-- How the code corresponds. A Rust function is a function of the same name; `&mut self` is a state
-- that is passed and returned; `Result` is Result, and a failed assert!, an index out of bounds, an
-- unwrap or expect of nothing, a panic! and a todo!() are all the value `panic` of Run. Words are
-- natural numbers with the wrap of the type written out where the code can reach it; in Untyped, a
-- sum or difference that leaves the type is a panic. A method's branch or loop that is long is a
-- function of its own, named for what it does. Pointers into the array of frames are the indices of
-- frames, and the memory of the array is a function. A reference to a table's slot that Rust
-- returns is the slot's index. A handle of any type is its number, and a capability the number of
-- its slot.
--
-- What is a parameter: the kernel's calls and the crates that are not in the repository. The state
-- they act on is the type `World` of the records RootServer.FrameTable.Alloc.Services and
-- RootServer.Irq.IrqServices, of RootServer.Untyped.Mapping.Services and of
-- Syscall.Client.Services, which have no laws. The first of them also stand for the untyped memory
-- and map_frame, whose own model is Untyped, and the first three for the root server's cspace,
-- whose own model is Cspace: their calls may panic, as ensure_levels does, and the kernel's may
-- not. The timer's device and the calls of callbacks are RootServer.Clock.Hardware. The ring in
-- shared memory of the sel4_shared_ring_buffer crate is the record Server.NtfnBuffer.SharedRing,
-- whose laws are those of a bounded queue.
--
-- Fuel: the loop of handle_irq and the loop over a notification word take a number of steps. 65 steps
-- are enough for the latter, one for each of 64 bits and one to see that none is left. The walk along
-- the timeouts and the loop that fires them take fuel too, one more than the timeouts that wait; alloc
-- recurs on the levels between a size and that of a page.
--
-- Not modelled: the handlers of windows but handle_window_create, views, objects, connections,
-- processes, the dispatch of invocations to their handlers, the set-up of cspaces and ELF
-- loading; device memory in frame_table.rs; and the start-up code, drivers and sDDF bindings, which
-- only call the kernel or external code.
pub mod Base
pub mod Word
pub mod Bitfield
pub mod UserCspace
pub mod Common
pub mod Server
pub mod Syscall
pub mod RootServer
pub mod Tests
