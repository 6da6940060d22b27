-- ===== src/Lib.antt =====
-- The firmware of a round watch (watch/src): a central state that a host keeps up to date over a
-- line protocol, a cache of that state for the time without the host, the pages that the user swipes
-- through, one optimistic action, and the loop that ties them to the network, the display and the buttons.
--
-- Parts and files:
--   State        watch/src/state/watch_state.h, .c: the state, browsing the notifications.
--   Navigation   watch/src/navigation/navigation.h, .c: the stack of screens and the carousel.
--   Gesture      watch/src/input/watch_gesture.h, .c: from a movement to a swipe.
--   Json         what the sources use of Zephyr's JSON parser, as a parameter; Samples is a parser for
--                the runs in the Tests modules.
--   Protocol     watch/src/protocol/watch_protocol.h, .c: Messages (message_types, find_type), Utf8
--                (valid_utf8), Numbers (parse_u32), Decode (validate_payload, watch_protocol_decode)
--                and Framing (watch_frame_decoder_push; Stream and Frames compare it with whole lines).
--   Sync         watch/src/state/watch_sync.h, .c: Values (the token parsers), Snapshots (parse_snapshot),
--                Mutations (parse_mutation, apply_mutation), Buffer (buffer_mutation, replay_buffer)
--                and Handle (watch_sync_handle), with Convergence, which compares it with
--                a host that counts its changes.
--   Cache        watch/src/cache/watch_cache.h, .c: Record (checksum, watch_cache_valid) and Operations
--                (watch_cache_restore and the captures); watch/src/cache/watch_cache_storage.c: Storage
--                (watch_cache_storage_load, watch_cache_storage_save) and, for a device, Device.
--   Actions      watch/src/actions/watch_actions.h, .c: the music action that waits for its result.
--   Transport    watch/src/transport/transport.h, .c: Frames (the lines that are printed), Link (the
--                variables, the calls of Zephyr and the callbacks), Sending (send_bytes and the
--                requests) and Connection (connect_if_due, transport_init, transport_poll).
--   Input        watch/src/input/watch_input.h, .c: the buttons' interrupts, watch_input_poll and
--                watch_input_init.
--   Apps         watch/src/apps/app_registry.h, .c, app_registry.generated.inc: the table of the pages.
--   Renderer     watch/src/renderer/renderer.h, .c: the touches (gesture_event, activate_event), Faces
--                (render_home, render_app) and Picture (face_create, gesture_layer_create, and
--                watch/src/animation/watch_animation.c).
--   Platform     watch/src/platform/watch_platform.h, watch_platform_native.c: the simulator's offer.
--   Runtime      watch/src/runtime/watch_runtime.h, .c: Display (render_current), Storing (the captures),
--                Messages (handle_protocol_message, handle_transport_event), Handling (handle_action)
--                and Loop (watch_runtime_run); the modules below Health and View, Restart and
--                Reconnect are proofs: of what stays in order, what the display shows, what is
--                kept, and how the host is found again.
--   Base         the names, tests, list functions and number lemmas that the parts share.
-- The Tests modules run the definitions on concrete inputs.
--
-- The loop (Runtime.Loop.turn) polls the transport, takes a button, looks for a timeout and lets LVGL
-- report its touches. The bytes of the connection go through Framing.push and Decode.decode to
-- Transport.Connection.handle_message and from there, by the callback, to
-- Runtime.Messages.handle_protocol_message, which calls Sync.Handle.handle or Actions.handle_result,
-- captures the state into the cache and draws it. A change of the connection goes to
-- handle_transport_event in the same way, a button or a touch to handle_action.
--
-- Correspondence. A struct is a record, an enum a data type. A function that changes its arguments
-- returns them, with its result last or, where the result comes first in the tuple, as the file says.
-- A char array is its text before the terminator; an array of structs is the list of its slots.
-- Numbers are natural numbers with the wrap-around written out, or the integers of Base.Int. An access
-- out of an array, or a signed overflow, is `none` in Navigation, Gesture and Renderer; the runtime then
-- sets `faulty`, a variable that the code has not. What a C call reports, with the world after it, is
-- taken apart by a function of its own (`opened`, `arrived`, `navigated`).
--
-- Bounds and fuel. replay_buffer has one round more than the buffer has slots: each round but the last
-- frees one. valid_utf8 has a round for each byte: each reads one at least. The walks over JSON are
-- structural, since a walk of the parser comes to an end. send_loop goes over the bytes. A uint32_t has
-- at most 10 digits and a uint64_t 20, the fuel of their numerals. The endless loop is Loop.turns, for
-- any number of turns.
--
-- Parameters. Json gives, for a text, the members or the items that the parser reports, so that it
-- reports the same for the same text; no theorem assumes more of it. Its writing of terminators into
-- text already read is not modelled. Layout gives the bytes of a cache record in memory; no theorem
-- assumes anything of it. Files gives the C library's calls on files, and FilesLaws says what
-- Storage relies on: a call leaves other files alone, a rename happens whole or not at all, and what
-- was written, flushed and closed without an error is read back.
--
-- Network gives Zephyr's calls on sockets, its clock and its random numbers on a world of any type,
-- with the law that the milliseconds since the boot leave room in an int64_t for the interval of a
-- second that is added to them. Only the theorems on what reaches the host assume more of it: Wire,
-- that `send` adds the bytes that it says it took, and Progress, that it takes at least one. Board
-- adds the pins, the wall clock, the environment, the files, the display, the touches and the
-- presses; the theorem on the loop assumes that touches lie on the display and that a record read
-- from a file is Slotted: it has its slots, a terminator in the title and the body of each, and
-- stores no more notifications than it counts. The interrupts take effect before the poll of their
-- turn, and the handlers leave the decoder's buffer alone.
--
-- The theorems on the display also assume Shows: that no call of the system but the loading of a screen
-- changes which screen was loaded last. That on a restart assumes that the environment stays
-- the same and that no host and no user takes part, and that on a new connection that showing a screen
-- sends nothing. The host of Sync.Handle.Convergence is a record of its own (HostData): what it has at
-- revision 0, and a change for each later revision; its messages are taken as parse_mutation and
-- parse_snapshot give them.
--
-- Not modelled: how LVGL draws a screen, the logging, and the host (host/src, in Rust).
pub mod Base
pub mod State
pub mod Navigation
pub mod Gesture
pub mod Json
pub mod Protocol
pub mod Actions
pub mod Cache
pub mod Sync
pub mod Transport
pub mod Input
pub mod Apps
pub mod Renderer
pub mod Platform
pub mod Runtime
