-- ===== src/Lib.antt =====
-- AbstractionLayer: operating system, drivers and applications for embedded programs behind one set of
-- interfaces. This library models the parts that do not depend on a platform.
--
-- The parts, with the files of the repository that they model:
--   Error         Utilities/Error.hpp and Modules/Error/Errno/ErrorModule.cpp: the error that every
--                 operation returns, and how it is made of an errno.
--   EventQueue    Applications/Event/EventQueue.hpp and .cpp: a ring buffer of callbacks. `add_event`,
--                 `run_next_event`, `wait_for_events` and `change_owner` are the methods, with the calling
--                 thread as an argument; EventQueue/Interleaving cuts `addEvent` and `runNextEvent` into
--                 their reads and writes of the shared members, and runs several threads by a schedule.
--   CommandQueue  Applications/CommandQueue/CommandQueue.hpp: a ring buffer of commands, the lists of
--                 threads that wait for commands, and `WaitForCommands` on several queues.
--   MemoryPool    Applications/MemoryPool/MemoryPool.hpp: `allocate`, `deallocate` and `available`.
--   Signal        Applications/SignalsAndSlots/SignalsAndSlots.hpp: `connect`, `disconnect` and `emit`.
--                 `emit` adds events to the observers' event queues, which are a parameter.
--   TickTimer     Applications/TickTimer/TickTimer.hpp: `Timer`, with the current tick as an argument.
--   Math          Utilities/Math.hpp: averages, differences and encodings.
--   DateTime      Utilities/Types.hpp: dates, their order, and the conversions to and from Unix time.
--   HBridge       Applications/IntegratedCircuits/HBridge/HBridgeAbstraction.hpp and TiDrv8872: the four
--                 commands of a bridge and its set-up. The drivers of its inputs are a parameter.
--   Rtc           Applications/IntegratedCircuits/Rtc/NxpPcf8506a: the date and the control register of
--                 a clock. The bus is a parameter, and so is what memory holds behind a string.
--   OperatingSystem  Modules/OperatingSystem/Linux: the table of threads, `block` and `unblock` that the
--                 two queues call, the loop of a blocking call (Waiting; its text is in Storage/Linux),
--                 the semaphores, and the loops over the timers. What POSIX does is a
--                 parameter.
--   Image         Utilities/ComputerVision.hpp: `SharpenConnectedPixels`, the filters that visit each pixel
--                 (Filters), the islands of a colour (Islands) and `GetSeed` (Seed); and the indices of an
--                 `Area` of Utilities/Types.hpp. A `char` is signed or not by an argument.
--   Http          Abstractions/Http/HttpTypes.hpp: the types of messages (Types, Languages, Tags), requests
--                 and responses written as text (Print, Write) and read from it (Read), the content type
--                 of a file and the parts of a URL (Files).
--   FileSystem    Modules/Storage/Linux/FileSystemModule.hpp and .cpp, with the file, the modes and the hash
--                 of Abstractions/Storage/FileSystemAbstraction.hpp: the calls on a file (Calls), on
--                 streams and a disk that are modelled (Streams). How the queue delivers the event of a
--                 call, and what the machine allows, are arguments.
--   Lcd           Applications/IntegratedCircuits/Lcd/Bridgetek: the words of the display list (Display), as
--                 commands with fields (Commands) and as the chip reads them (Decode), reads and writes of
--                 the memory of the chip (`host_memory_read`, `host_memory_write`; Memory), and the buffer
--                 of commands (Buffer: `write_to_command_buffer`, `command_buffer_space`), and the calls that
--                 start the chip and copy its memory (Control). The bus and the chip behind it are an
--                 argument.
--   StaticString  Utilities/StaticString.hpp, `Container`: who has the static buffers; sequences of its
--                 operations (Sequences) and calls that it does not bear (Misuse).
--   Ntp           Applications/NtpClient: the request, and the time of the reply. The client of the network
--                 is an argument.
--   RtcManager    Applications/RtcManager: `submit_input_time` on two clocks that are arguments, with the
--                 conversions of DateTime.
--   Split, Concatenate  Utilities/Algorithm.hpp: `Split` and `ConcatenateStrings`.
-- Ring has the indices of a ring buffer, for the two queues. Prelude passes on the library's names and
-- has Boolean tests, lists and 32-bit words on the native numbers.
--
-- A `uint32_t` is a number with the wrap-around written out. What the operating system does is an
-- argument: the identity of the calling thread, and the state after the thread was blocked. Of the loops,
-- `subtract_years` has 180 rounds, enough for 65535 days (`DateTime.Unix.subtract_years_lem`), and
-- `move_first` takes the number of spurious failures of its exchange as an argument; `wait_rounds`,
-- `delete_timer` and `stop_timer` have fuel, since they need not end. `sharpen` has ten rounds for each
-- pixel to fill, which is enough since a pixel is filled once and pushes at most eight. `to_string` has
-- one round more than the number, which is enough for its digits; `read_all` has one call more than there
-- are characters to read, and `split` two rounds more than there are characters.
-- `walk` has a round for each pixel and one more, since a pixel is put on the queue once; `filter_strips`
-- and `steps` have one round more than the area has columns or rows, and each round moves on by one at
-- least. `write_rounds` of the display and `flush_rounds` have fuel, since a bus that fails or a chip
-- without space keeps them in their loops; on a bus that works one round more than the retries is enough
-- for the first.
--
-- Not modelled: the other drivers, the network modules, storage and operating systems on other platforms
-- and the http clients and servers, which call vendor libraries or write hardware registers; of Linux,
-- `createTimer`, the mount and the calls that do not block; of the display, its set-up, the backlight,
-- calibration and touches; logging; floating-point code; and the copy of the static string of Boost.
pub mod Prelude
pub mod Error
pub mod Ring
pub mod EventQueue
pub mod CommandQueue
pub mod Concatenate
pub mod MemoryPool
pub mod Signal
pub mod Split
pub mod StaticString
pub mod Ntp
pub mod RtcManager
pub mod TickTimer
pub mod Lcd
pub mod Math
pub mod DateTime
pub mod HBridge
pub mod Rtc
pub mod OperatingSystem
pub mod Http
pub mod FileSystem
pub mod Image
