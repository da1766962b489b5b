-- ===== src/FileSystem.antt =====
-- Modules/Storage/Linux/FileSystemModule.hpp and .cpp, and Abstractions/Storage/FileSystemAbstraction.hpp:
-- files, by a map of open streams from the hash of a path. Each call adds an event to the queue of the
-- storage and waits until it has run. What the machine allows is an argument, `Host`.
pub mod Streams
pub mod Calls
pub mod Reading
pub mod Closing
pub mod Writing
mod Examples
use Prim.Native.Nat.{bit_xor}
use abstraction_layer.Prelude.{
  ℕ, ◌+◌, ◌*◌, ◌%◌, Bool, true, false, ◌&&◌, ◌||◌, not, Option, none, some, List, [], ◌∷◌, ◌++◌,
  ◌==◌, if◌then◌else◌, length, add32, u32,
}
use abstraction_layer.Prelude.Text.{Text, take, drop}
use abstraction_layer.Error.{
  ErrorType, success, failure, not_implemented, limit_reached, prerequisites_not_met,
  invalid_parameter, end_of_file, is_success,
}
use abstraction_layer.FileSystem.Streams.{
  Host, Disk, Flags, Stream, new_stream, open_stream, is_good, clear, seek_get, seek_get_end,
  seek_put, read_stream, write_stream, flush, erase_file,
}

pub data OpenMode : Type 0 where
  unknown read_only write_only_new write_only_append write_only_truncate : OpenMode
  read_write_new read_write_append read_write_truncate : OpenMode

pub record File : Type 0 where
  pub path : Text
  pub size : ℕ
  pub file_pointer : ℕ
  pub open_mode : OpenMode
  pub is_open : Bool

-- FNV-1a.
unfoldable pub hash : ℕ → Text → ℕ
hash k [] = k
hash k (c ∷ path) = hash ((bit_xor k c * 0x01000193) % u32) path

unfoldable pub path_key : Text → ℕ
unfolding hash
path_key = hash 0x811c9dc5

unfoldable pub can_read_from_file : OpenMode → Bool
can_read_from_file OpenMode.read_only = true
can_read_from_file OpenMode.read_write_new = true
can_read_from_file OpenMode.read_write_append = true
can_read_from_file OpenMode.read_write_truncate = true
can_read_from_file _ = false

unfoldable pub can_write_to_file : OpenMode → Bool
can_write_to_file OpenMode.read_only = false
can_write_to_file _ = true

-- `none` is `InvalidParameter`.
unfoldable pub to_std_open_mode : OpenMode → Option Flags
to_std_open_mode OpenMode.read_only =
    some (record { input = true; append = true; truncate = false; at_end = false })
to_std_open_mode OpenMode.write_only_new =
    some (record { input = false; append = true; truncate = false; at_end = false })
to_std_open_mode OpenMode.write_only_append =
    some (record { input = false; append = true; truncate = false; at_end = false })
to_std_open_mode OpenMode.write_only_truncate =
    some (record { input = false; append = false; truncate = true; at_end = true })
to_std_open_mode OpenMode.read_write_new =
    some (record { input = true; append = true; truncate = false; at_end = false })
to_std_open_mode OpenMode.read_write_append =
    some (record { input = true; append = true; truncate = false; at_end = false })
to_std_open_mode OpenMode.read_write_truncate =
    some (record { input = true; append = false; truncate = true; at_end = false })
to_std_open_mode OpenMode.unknown = none

-- `std::map<uint32_t, std::fstream>`.
abbrev pub OpenFiles : Type 0
OpenFiles = List (ℕ × Stream)

unfoldable pub find_stream : ℕ → OpenFiles → Option Stream
find_stream key [] = none
find_stream key ((k, s) ∷ files) =
    let rest = find_stream key files in if k == key then some s else rest

-- `openFiles[key] = s`.
unfoldable pub set_stream : ℕ → Stream → OpenFiles → OpenFiles
set_stream key s [] = (key, s) ∷ []
set_stream key s ((k, t) ∷ files) =
    let rest = set_stream key s files in if k == key then (k, s) ∷ files else (k, t) ∷ rest

unfoldable pub erase_stream : ℕ → OpenFiles → OpenFiles
erase_stream key [] = []
erase_stream key ((k, t) ∷ files) =
    let rest = erase_stream key files in if k == key then files else (k, t) ∷ rest

-- The members that the calls use; `is_initialized` is that of the status of the storage.
pub record FileSystem : Type 0 where
  pub mount_prefix : Text
  pub is_initialized : Bool
  pub opened_files : ℕ
  pub open_files : OpenFiles
  pub disk : Disk

-- What a call works on: the file system and the caller's file.
abbrev pub State : Type 0
State = FileSystem × File

-- The stream of a file, if it is open.
unfoldable pub opened : Option Stream → Option Stream
opened none = none
opened (some s) = if s.is_open then some s else none

unfoldable pub stream_of : FileSystem → File → Option Stream
unfolding opened find_stream
stream_of fs file = opened (find_stream (path_key file.path) fs.open_files)

-- What to do with the stream of an open file, and what to return if it is not open.
abbrev pub if_open : {A : Type 0} → Option Stream → A → (Stream → A) → A
if_open none a f = a
if_open (some s) a f = f s

-- The file system with another stream for the file.
unfoldable pub with_stream : FileSystem → File → Stream → FileSystem
with_stream fs file s = record fs { open_files = set_stream (path_key file.path) s fs.open_files }

-- How `addEvent` takes the event, and how the wait for it ends: the event runs at once, on the thread
-- of the queue; it is queued and has run when the wait ends; it is refused; or the wait ends before it
-- has run, since `block` returned another error than `LimitReached`.
pub data Delivery : Type 0 where
  runs_now queued refused abandoned : Delivery

-- What a call returns and leaves, from the error before its callback has run, and the callback.
unfoldable pub submit :
    Delivery → ErrorType → (State → ErrorType × State) → State → ErrorType × State
submit Delivery.runs_now initial callback s = callback s
submit Delivery.queued initial callback s = callback s
submit Delivery.refused initial callback s = (limit_reached, s)
submit Delivery.abandoned initial callback s = (initial, s)
