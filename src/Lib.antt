-- ===== src/Lib.antt =====
-- A model of stylus-popup, the program that shows an island with the state of a tablet's pen, pairs
-- the pen over Bluetooth, and runs commands for the gestures of its buttons.
--
-- The program's parts. A thread reads the driver of the pen's charging dock and emits its states
-- (src/stylusmonitor.cpp). `main` (src/main.cpp) passes each state to the island
-- (src/popupwidget.cpp) and asks the Bluetooth manager (src/bluezmanager.cpp) once for each seating
-- of the pen to pair it; the manager's signals go back to the island, over the event queue, and the
-- island's time-out cancels the attempt. The island is painted on a layer surface
-- (src/waylandlayersurface.cpp). A second thread polls the pen's input nodes
-- (src/stylusbuttons.cpp) and feeds each key event to the gesture detector of its button
-- (src/stylusgestures.cpp); each gesture runs a command of the configuration (src/appconfig.cpp).
--
-- Which module models which part:
--   Pen       the driver event, its decoding and the read loop (`StylusMonitor::readState`, `run`);
--             Pen/Address has the address text and what every report satisfies. Pen/Threads is the
--             thread beside `stop`, turn by turn over what they share, with its proofs in
--             Pen/Threads/Closing and Pen/Threads/Stopping.
--   Gesture   `ButtonGestureDetector`, one function per method; Gesture/Phases has a machine of
--             five phases beside it, Gesture/Deadline the deadline, Gesture/Budget the count
--             of gestures against presses, Gesture/Verdicts whole presses.
--   Spring    src/spring.h over a type of reals with its operations; Spring/Resting is about
--             springs that have settled.
--   Platform  those operations, and the translation and the text measure that Qt gives; a concrete
--             one on integers is in Platform/Fixed.
--   Popup     `PopupWidget`: its state and `setMode` in Popup, src/islandstrings.cpp in
--             Popup/Strings, the handlers in Popup/Handlers, the frame loop in Popup/Frames, and the
--             dispatch of the events in Popup/Events. Proofs: Popup/Timers, Popup/Swap,
--             Popup/Moving and Popup/Reasons (the invariants, with Popup/Kept for what the helpers
--             leave alone), Popup/Shown and Popup/Screen (the order of its calls on the layer
--             surface), Popup/Verdicts and Popup/Bonded. Popup/Start is what the constructor takes
--             from the screen and from the folder of the theme, with its timers and fonts.
--   Popup/Paint  the painting, as the list of the calls on the QPainter: the glyphs in
--             Paint/Glyphs, the two compact forms in Paint/Compact, the expanded one in
--             Paint/Battery, and `paintIsland` in Paint/Island. Paint/Painter is what a painter
--             makes of the calls; proofs: Paint/Restored, Paint/Clipped, Paint/Texts,
--             Paint/Sizes and Paint/Said.
--   Bluez     `BluezManager`, one function per method or slot; Bluez/Attempts has its step relation
--             and invariant, Bluez/Stale what late replies do, and Bluez/Objects the managed objects
--             as D-Bus tells of them, with the two searches among them.
--   Config    `AppConfig::load`, `configPath` and the default file; Config/Bounds, Config/Reload.
--   Buttons   a node of src/stylusbuttons.cpp and its events; Buttons/Monitor has `scan`, `attach`
--             and `drain`, Buttons/Deadlines the flush and the poll timeout, Buttons/Loop the poll
--             loop, Buttons/Mapper the command of a gesture, and Buttons/Diagnostics what
--             `printMatchingDevices` says (its first and last lines are in Buttons/Heading). Proofs:
--             Buttons/Drain, Buttons/Timeout, Buttons/Ledger and Buttons/Descriptors.
--             Buttons/Queries has the filter of the input folder and the ioctl queries with their
--             buffers, Buttons/Pollfds the array of one poll and its indices (with
--             Buttons/Pollfds/Mapping), and Buttons/Threads the thread beside `stop`, over the flag
--             and the eventfd (with Buttons/Threads/Waking); Buttons/Threads/Ending has the
--             destructors beside the thread, with Buttons/Threads/Ending/Joining. From the events
--             to the commands: Buttons/Presses (with Buttons/Presses/Paid), Buttons/Clicks (with
--             Buttons/Clicks/Started) and Buttons/Ours (with Buttons/Ours/Triggered).
--   Layer     `WaylandLayerSurface`: the shared memory and the buffer in Layer itself, the frames, hiding
--             and the first commit in Layer/Drawing; Layer/Account is
--             how the kernel and the compositor account for its calls, Layer/Resources and
--             Layer/Lives keep to it, Layer/Ints (with Layer/Ints/Framed) is about the sizes that an
--             int holds, Layer/Shown about what a commit puts on the screen, and Layer/Frames
--             about the sizes of the buffers.
--             Layer/Files is `makeAnonFd`, with Layer/Files/Settled; Layer/Proxies is the registry,
--             `init` up to its first commit and the destructor, with Layer/Proxies/Released.
--             Layer/Setup has the scale and the requests before the first commit, with what the
--             island's constructor hands in; Layer/Protocol (with Layer/Protocol/Lawful) what the
--             protocols ask of the calls; and Layer/Release the listener of the buffers.
--   Theme     `ColorTheme`, and the reload of PopupWidget; Theme/Roles has the colours at any time.
--   App       the connections of `main`; App/Wiring has the step relation of the whole
--             application, App/Requests the requests and the time-out, App/Pairing the
--             way of a pen that BlueZ lists, App/Screen what the island's calls leave on the layer
--             surface, App/Upload how its images come to the shared memory, and App/Start the
--             command line and what is started with which configuration.
--   Prelude   the names shared by all, lists, and integers over the native numbers.
--
-- How code corresponds. Each method is a function from the object's record to the object's record,
-- with what it emits or calls as a list, the newest first where the record keeps it. Qt timers are
-- Booleans that say whether one is active; that one fires is an event. What the system answers
-- (reads, polls, D-Bus replies, the validity of a D-Bus interface, the caseless comparison of
-- addresses, QSettings values) is given to the functions. Clock readings are integers, as qint64;
-- the code adds to them amounts that its configuration bounds, so that no sum wraps at any date.
-- Floating point is a type of reals. Its laws are not used, so that what is proved of the island holds
-- whatever its arithmetic does; only Spring/Resting names four laws of zero. Two threads are one
-- sequence of turns in any order, each one access of what they share, and a read or a poll answers as
-- the turn says.
--
-- Sizes of the layer surface are natural numbers without a bound, where the source computes in int: the
-- two agree where an int holds the sizes (`IsWide` and `IsHigh` of Layer/Ints), for which a configured
-- width below 2 ^ 31 is not enough; nothing is said of the source beyond.
--
-- Bounds and fuel. The loop of ticks at a flush is the only one with fuel, of two rounds, since a
-- tick that produces a gesture leaves none behind. Every other loop is over a list or a count.
--
-- What is not modelled: the log; memory orders weaker than one sequence of accesses; the metatypes
-- that QtDBus is given. The rectangles, the paths and the metrics of Qt are parameters of
-- the painting, so that nothing is said of where on the screen a figure lies.
pub mod Prelude
pub mod Gesture
pub mod Pen
pub mod Platform
pub mod Spring
pub mod Popup
pub mod Bluez
pub mod Config
pub mod Buttons
pub mod Layer
pub mod Theme
pub mod App
