-- ===== src/Lib.antt =====
-- shoestring-wm is a Wayland window manager with its tools: a compositor (src/), a bar, a locker, a
-- notification daemon, a remote desktop server and client (crates/), each with some logic of its own
-- over the Wayland, D-Bus and X11 libraries that it calls. This library models that logic part by
-- part, over explicit states, and proves what makes each part correct.
--
-- Prelude (Prelude/*): numbers, lists, signed integers and machine words. An i32 is an integer and
--   its sums wrap (`add_i32`, `sub_i32`); an unsigned word is a number, its wrap written out.
-- Holds (Holds/*): crates/shoestring-remote-server/src/holds.rs. `Holds.HeldSet` is the session's
--   BTreeSet; `Holds` has `transition`, `end_session` and `reset`; `Holds.Server` runs them for a
--   list of events, as session.rs (`forward_input`) and main.rs (`run_supervisor`) do. The mutex of
--   `Holds` makes each call one event, so a list of events is an interleaving of the sessions'
--   threads. An injection is taken to succeed. Where the gate closes, the window manager's release of
--   injected input (src/state.rs) and the server's `reset` when it is told are one event, `close_gate`:
--   what a session does between the two is not modelled. Counts are usize of 64 bits.
-- Layout (Layout/*): src/layout.rs. `Layout.Rect` and `Layout.Arrange` compute rectangles,
--   `Layout.Manager` is `LayoutManager`, `Layout.Desktop` has the transitions over smithay's `Space`,
--   which is the parameter `Smithay`. A window is a number, its identity. The number of windows is
--   below 2^31, where the casts of `grid_rects` to i32 and its square root in f64 are exact.
--   Logging is left out.
-- Remote (Remote/*): crates/shoestring-remote/src. `Remote.Bytes` and `Remote.Reader` are the put_*
--   encoders and `Reader` of lib.rs; `Remote.Message` has the types, `Remote.Parts`, `Remote.Client`
--   and `Remote.Server` the encoders and decoders of message.rs and version.rs; `Remote.Framing`,
--   `Remote.Frames` and `Remote.Limits` are `read_framed`, `write_framed`, `frame_messages`,
--   `band_rows` and `framebuffer_len`; `Remote.Codec` is codec.rs. Bytes are numbers, a text is its
--   UTF-8 bytes, an f64 its bit pattern, a stream the list of its bytes, and a framebuffer the list
--   of its bytes. flate2's zlib is the parameters `compress` and `inflate`. The loops run over
--   counts and lists, so there is no fuel. `apply_tile` has no wrap in `stride * dst_height`: its
--   callers have had the size accepted by `framebuffer_len`, which refuses every size that could wrap.
--   Left out are the texts of errors, `check_scale`, which
--   compares floating-point numbers, and the connections of transport.rs.
-- Notify (Notify/*): crates/shoestring-notify/src/state.rs, the `Queue` of notifications. An Instant
--   is nanoseconds on a clock without end. The D-Bus service and the rendering are left out.
-- Lease (Lease/*): src/remote_lease.rs. `Lease` has the lease itself, and `Lease.Gate` the remote gate
--   as a list of events: `set_automation` and `set_remote` of src/state.rs, the requests of
--   src/ipc.rs that change the gate, the viewers or the server, and the timer's callback. Whether the
--   event loop takes a timer is an argument of each event. What subscribers are told, the release of
--   injected input and the end of captures are left out.
-- Seat (Seat/*): src/inject.rs. `SeatHeld` records what each source of input holds; `Seat.on_event` is
--   a transition (`inject_raw_keycode`, `inject_raw_button`, and the handlers of src/input.rs for
--   physical devices) or the departure of a source (`release_held_by`), and keeps what has been passed
--   on. A BTreeSet is an ascending list, the HashMap of devices an association list, a device's id a
--   number. What clients and key bindings do with what is passed on is left out.
-- Drag (Drag/*): src/drag.rs, over `Seat`. `Drag.on_drag_event` is one event of the loop: the IPC
--   request, the timer's callback, a disconnection, the automation gate, the lock, a window that
--   closes, local input. Whether the event loop takes a timer is an argument. Times are nanoseconds; a
--   motion is its place among the steps, since its coordinates are f64. Motions, the transitions of
--   buttons that are delivered and replies go out in one trace, each with its time. What `resolve_drag` makes of
--   the request is an argument. Of `drop_ipc_client` only what concerns a drag is modelled.
-- Maze (Maze/*): crates/shoestring-lock/src/maze.rs. `Maze.Carve` is `Maze::generate_dfs`, `Maze.Solve`
--   the `Solver`, `Maze.Rng` the generator of random numbers. A cell is its column and row, the four
--   bits of its mask are four flags, a Vec is a list read and written by index. The carving loop has
--   fuel of two rounds for each cell: a cell is pushed once and popped once. The fields of `Solver` that
--   never change are parameters. `Maze.Animation` is `Animation` of crates/shoestring-lock/src/main.rs, a
--   tick with the time at which it comes; a frame takes three steps, so there is no fuel. The seed from
--   the clock and the place of the maze on the surface are left out.
-- Viewers (Viewers/*): crates/shoestring-remote-server/src/viewers.rs. A guard is the generation in
--   which it joined, the mutex makes each call one event, and reports are kept in order.
-- Command (Command/*): src/remote_command.rs, with the request of src/ipc.rs that starts a command.
--   `Command.on_command_event` is one event: a request, a chunk of output or its end, a child reaped, a
--   timer over. What the operating system and the event loop answer is an argument. The HashMap is an
--   association list. `Command.Text` is `String::from_utf8_lossy`, which makes the texts of a reply; its
--   steps are those of `Remote.Utf8`. Detached commands, the process that is started, the reading of
--   pipes (child_pipe.rs) and the messages of errors are left out.
-- Workspace (Workspace/*): src/workspace.rs, `WorkspaceManager` with its focus histories, each from
--   the top of its stack. Whether a window is alive is the parameter `alive`. An index of a workspace
--   that does not exist, at which the source panics, changes nothing and finds no window. Display
--   names are left out.
--
-- The other parts, among them the drawing, the backends, the protocol handlers over smithay, the
-- desktop's tools and the configuration, are not modelled.
pub mod Prelude
pub mod Command
pub mod Drag
pub mod Holds
pub mod Layout
pub mod Lease
pub mod Maze
pub mod Notify
pub mod Remote
pub mod Seat
pub mod Viewers
pub mod Workspace
