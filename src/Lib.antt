-- ===== src/Lib.antt =====
-- sharedgl: an OpenGL driver for guests that sends the calls over shared memory or a network.
--
-- A client library (src/client) implements the GL functions. Each pushes a command word and its
-- arguments on a push buffer; a submission hands the buffer to the server (src/server), whose
-- command loop reads the words and makes the calls on the host's driver. In shared-memory mode the
-- mapping holds registers, a page for each client (its slot) and a stage that the stream is copied
-- to. The constants of this protocol are in inc/sharedgl.h.
--
-- Files:
--   Prelude        shared names, Boolean tests, lists over the native numbers, bits of a word.
--   Memory         a byte memory: memcpy, memset, little-endian words.
--   Layout         inc/sharedgl.h: offsets and sizes; Layout.Reg the registers.
--   Pb             src/client/pb.c: the static variables are the record PushBuffer, each function
--                  (pb_push, pb_memcpy, ...) is the definition of the same name and returns the new
--                  state. Pb.Bounds, Pb.Stream and Pb.Offsets hold its theorems.
--   Slots          shm_claim_slot (src/client/glimpl.c), sgl_release_client_slot and the spin lock
--                  (src/server/processor.c).
--   Strings        push_string, push_counted_string (glimpl.c), ADVANCE_PAST_STRING and
--                  read_counted_strings (processor.c).
--   Commands       for each group of GL calls: a data type of the calls, the words that glimpl.c
--                  pushes (x_words) and the cases of the switch of processor.c (exec_x). Cmd holds
--                  the command numbers, Decode the reading of arguments off the stream. Values,
--                  Texels and SubImages are groups whose data are uploaded in front of the command;
--                  the words of an upload are the client's memory.
--   Server         sgl_cmd_processor_start (processor.c): its variables are the record Server, one
--                  round of the loop is exec, the loop is run. Server.Client is what a client pushes
--                  and asks for; Server.Rounds, Sizes, Uploads, SubImages and Stream hold the theorems,
--                  Within and Ends are about its fuel.
--   Submit         glimpl_submit and submit_shm (glimpl.c), one batch of the server (serve, with load
--                  and answer, of processor.c) in shared-memory mode. Submit.Delivery is the client's
--                  half, Submit.Reply the server's and the two together, Submit.Dropped the error path;
--                  Submit.Loop is the command loop on a stream in memory.
--   Network        the network mode: wait_net, sgl_net_accept_connection, sgl_net_get_fifo_upload and
--                  the reply (processor.c), init_net, submit_net, glimpl_submit and the register hooks
--                  (glimpl.c). ENet's events are lists, a list of rounds for the two loops of wait_net.
--                  Network.Packet and Joining are the first packet, Waiting what wait_net returns,
--                  Session and Reply a submission from end to end, Lost packets in one round.
--   Protocol       several clients in submit_shm (glimpl.c, spinlock.c) and the server in wait_shm and
--                  its outer loop (processor.c), as a step relation with one access to shared memory
--                  a step: Move is a client's step, Serve the server's, Step an interleaving.
--                  Protocol.Invariant is what holds of every reachable state; Clients, Servers and
--                  Rounds prove it, Safety and Progress draw the conclusions.
--   Bindings       the buffer bindings of glimpl.c: glBindBuffer, glBindVertexArray,
--                  glVertexArrayElementBuffer and glDeleteVertexArrays, without their pushes, and the
--                  table of vertex arrays with its search. Bindings.Table and Writes read the table as
--                  a map, Calls compares any calls with a reference.
--   Pixels         glimpl_align_size to glimpl_set_pixel_store of glimpl.c, without
--                  glimpl_get_legacy_color_array_size: the sizes of pixels, the span of a transfer
--                  (Pixels.Span), the stored parameters (Pixels.Store); Pixels.Enum holds the
--                  constants of inc/commongl.h.
--   Downloads      glimpl_download_buffer (glimpl.c) and the case of SGL_CMD_VP_DOWNLOAD
--                  (processor.c), block by block through the client's slot.
--   Draws          glimpl_get_max_index and glimpl_push_client_pointer of glimpl.c: the greatest index
--                  (Draws.Indices) and the upload of an array (Draws.Gather, Draws.Upload).
--   Frames         sgl_read_pixels (src/server/context.c), its vertical flip (Frames.Flip), and the text
--                  that src/server/overlay.c draws (Frames.Drawing). A picture is a function from the
--                  index of a pixel.
--   Driver         kernel/linux/sharedgl.c: pci_probe with its error path and pci_remove. Device is what
--                  the driver holds; a release of what is not held is a fault. Driver.Handles, Nodes
--                  and Bars are its loops, Labels the labels of the error path, Probe the whole.
--   Dynarr         src/server/dynarr.c: a linked list, as next pointers on a heap.
--   Connections    connection_add, connection_current and connection_rem of processor.c, on Dynarr.
--   Scratch        src/client/scratch.c: the growing buffer, with the system calls as parameters.
-- The Tests modules hold runs and instances at concrete input.
--
-- Conventions and bounds: an int, a float and a GL enum are the 32-bit pattern on the wire, a
-- natural number; size_t arithmetic wraps at 2^64 and u32 at 2^32. The stream is read as a list of
-- words, and a read behind its end is a fault of the model. Loops over a linked list run on fuel
-- above the number of its elements. The command loop runs on fuel: each round reads at least one
-- word, so more fuel than words is enough (Server.Ends). The GL driver is a parameter: a function of
-- the calls so far that gives the value of the latest.
--
-- Not modelled: ENet (the vendored inc/network/enet.h), whose events are lists here, the compression
-- (inc/lzav.h), the window-system glue, the Windows kernel driver (a copy of another project's), SDL
-- and the clock of the overlay, the tables of names; of glimpl.c and processor.c the pointers of the
-- draws, the queries, and of the commands with data those that Commands does not list.
mod Prelude
pub mod Memory
pub mod Layout
pub mod Pb
pub mod Slots
pub mod Strings
pub mod Commands
pub mod Server
pub mod Submit
pub mod Dynarr
pub mod Scratch
pub mod Connections
pub mod Protocol
pub mod Bindings
pub mod Pixels
pub mod Downloads
pub mod Draws
pub mod Network
pub mod Frames
pub mod Driver
