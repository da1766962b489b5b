-- ===== src/FileSystem/Calls.antt =====
-- Modules/Storage/Linux/FileSystemModule.cpp: the calls. A callback is what a call runs on the thread of
-- the queue of the storage.
use abstraction_layer.Prelude.{
  ℕ, ◌%◌, true, false, not, none, some, [], ◌++◌, if◌then◌else◌, length, add32, u32,
}
use abstraction_layer.Prelude.Text.{Text}
use abstraction_layer.Error.{
  ErrorType, success, failure, limit_reached, prerequisites_not_met, invalid_parameter, end_of_file,
  is_success,
}
use abstraction_layer.FileSystem.Streams.{
  Host, Flags, Stream, open_stream, is_good, clear, seek_get, seek_get_end, seek_put, read_stream,
  write_stream, flush, erase_file,
}
use abstraction_layer.FileSystem.{
  path_key, can_read_from_file, can_write_to_file, to_std_open_mode, set_stream, erase_stream,
  State, stream_of, if_open, with_stream, submit, OpenMode, File, FileSystem, Delivery,
}

unfoldable pub synchronize_stream : Host → FileSystem → File → Stream → ErrorType × State
unfolding with_stream flush is_good can_write_to_file
synchronize_stream host fs file s =
    let flushed = flush host s in
    let cleared = with_stream fs file (clear flushed) in
    if is_good flushed
    then (success, (with_stream fs file flushed, file))
    else if not (can_write_to_file file.open_mode)
    then (success, (cleared, file))
    else (failure, (cleared, file))

-- The callback of `synchronize`, on the thread of the queue.
unfoldable pub synchronize_callback : Host → State → ErrorType × State
synchronize_callback host (fs, file) =
    if_open (stream_of fs file) (prerequisites_not_met, (fs, file))
      (synchronize_stream host fs file)

unfoldable pub synchronize : Host → Delivery → State → ErrorType × State
unfolding submit synchronize_callback
synchronize host d = submit d prerequisites_not_met (synchronize_callback host)

unfoldable pub size_stream : FileSystem → File → Stream → ErrorType × State
unfolding with_stream seek_get_end seek_get is_good
size_stream fs file s =
    let end = seek_get_end fs.disk s in
    let start = seek_get 0 end in
    let sized : File = record file { size = end.position % u32 } in
    if not (is_good end)
    then (prerequisites_not_met, (with_stream fs file (clear end), file))
    else if not (is_good start)
    then (prerequisites_not_met, (with_stream fs file (clear start), sized))
    else (success, (with_stream fs file (clear start), sized))

unfoldable pub size_callback : State → ErrorType × State
size_callback (fs, file) =
    if_open (stream_of fs file) (prerequisites_not_met, (fs, file)) (size_stream fs file)

unfoldable pub size : Delivery → State → ErrorType × State
unfolding submit size_callback
size d = submit d prerequisites_not_met size_callback

-- The end of `open`, behind the query of the size, which runs at once.
abbrev pub opened_as : OpenMode → ErrorType × State → ErrorType × State
opened_as mode (error, (fs, file)) =
    if is_success error
    then (success, (fs, record file { is_open = true; open_mode = mode; file_pointer = file.size }))
    else (error, (fs, file))

-- `open` with the flags of a mode.
unfoldable pub open_with : Host → Text → OpenMode → Flags → State → ErrorType × State
unfolding open_stream path_key set_stream erase_stream size
open_with host path mode flags (fs, file) =
    let (s, disk) = open_stream host (fs.mount_prefix ++ path) flags fs.disk in
    let key = path_key path in
    let with_it = record fs { open_files = set_stream key s fs.open_files; disk = disk } in
    if is_good s
    then opened_as mode (size Delivery.runs_now (with_it, record file { path = path }))
    else (failure, (record fs { open_files = erase_stream key fs.open_files; disk = disk }, file))

-- `open` of a file that is not open.
unfoldable pub open_new : Host → Text → OpenMode → State → ErrorType × State
unfolding open_with to_std_open_mode
open_new host path mode s = elim (to_std_open_mode mode) [
  | none ↦ (invalid_parameter, s)
  | some flags ↦ open_with host path mode flags s
]

unfoldable pub open_callback : Host → Text → OpenMode → State → ErrorType × State
open_callback host path mode (fs, file) =
    if fs.is_initialized
    then if_open (stream_of fs file) (open_new host path mode (fs, file))
        (λ s. (success, (record fs { opened_files = length fs.open_files }, file)))
    else (prerequisites_not_met, (fs, file))

unfoldable pub open_file : Host → Delivery → Text → OpenMode → State → ErrorType × State
unfolding submit open_callback
open_file host d path mode = submit d prerequisites_not_met (open_callback host path mode)

-- The end of `close`, behind `synchronize`.
abbrev pub closed : ErrorType × State → ErrorType × State
closed (error, (fs, file)) =
    let left = erase_stream (path_key file.path) fs.open_files in
    if is_success error
    then (
      success,
      (
        record fs { open_files = left; opened_files = length left },
        record file { open_mode = OpenMode.unknown; is_open = false },
      ),
    )
    else (error, (fs, file))

unfoldable pub close_callback : Host → State → ErrorType × State
close_callback host (fs, file) =
    if_open (stream_of fs file) (success, (fs, file))
      (λ s. closed (synchronize host Delivery.runs_now (fs, file)))

unfoldable pub close : Host → Delivery → State → ErrorType × State
unfolding submit close_callback
close host d = submit d success (close_callback host)

-- The end of `remove`, behind `close`: the result of `std::remove` does not change the error.
abbrev pub removed : Host → ErrorType × State → ErrorType × State
removed host (error, (fs, file)) =
    if is_success error
    then (
      success,
      (record fs { disk = (erase_file host (fs.mount_prefix ++ file.path) fs.disk).1 }, file),
    )
    else (error, (fs, file))

unfoldable pub remove_callback : Host → State → ErrorType × State
unfolding close erase_file
remove_callback host s = removed host (close host Delivery.runs_now s)

unfoldable pub remove : Host → Delivery → State → ErrorType × State
unfolding submit remove_callback
remove host d = submit d failure (remove_callback host)

-- `readBlocking` on the stream of an open file, with a buffer of `n` characters, and what it reads; the
-- assertion wants `n` to be above 0.
unfoldable pub read_open : ℕ → FileSystem → File → Stream → Text × (ErrorType × State)
unfolding with_stream seek_get read_stream is_good
read_open n fs file s =
    let sought = seek_get file.file_pointer s in
    let read = read_stream n fs.disk sought in
    let moved : File = record file { file_pointer = add32 file.file_pointer (length read.0) } in
    if is_good sought
    then (
      read.0,
      (if read.1.eof then end_of_file else success, (with_stream fs file read.1, moved)),
    )
    else ([], (prerequisites_not_met, (with_stream fs file (clear sought), file)))

unfoldable pub read_callback : ℕ → State → Text × (ErrorType × State)
read_callback n (fs, file) =
    if can_read_from_file file.open_mode
    then if_open (stream_of fs file) ([], (prerequisites_not_met, (fs, file))) (read_open n fs file)
    else ([], (prerequisites_not_met, (fs, file)))

-- What is read, and what `submit` returns and leaves.
unfoldable pub read_blocking : Delivery → ℕ → State → Text × (ErrorType × State)
unfolding read_callback
read_blocking Delivery.runs_now n s = read_callback n s
read_blocking Delivery.queued n s = read_callback n s
read_blocking Delivery.refused n s = ([], (limit_reached, s))
read_blocking Delivery.abandoned n s = ([], (prerequisites_not_met, s))

-- `file.size += bytes.size()`, whatever `synchronize` returned.
abbrev pub grown : Text → ErrorType × State → ErrorType × State
grown bytes (error, (fs, file)) =
    (error, (fs, record file { size = add32 file.size (length bytes) }))

unfoldable pub write_open : Host → Text → FileSystem → File → Stream → ErrorType × State
unfolding with_stream seek_put write_stream is_good
write_open host bytes fs file s =
    let sought = seek_put file.file_pointer s in
    let after = write_stream host bytes fs.disk sought in
    let stored : FileSystem = record (with_stream fs file after.0) { disk = after.1 } in
    if not (is_good sought)
    then (failure, (with_stream fs file (clear sought), file))
    else if is_good after.0
    then grown bytes (synchronize host Delivery.runs_now (stored, file))
    else (prerequisites_not_met, (stored, file))

unfoldable pub write_callback : Host → Text → State → ErrorType × State
write_callback host bytes (fs, file) =
    if can_write_to_file file.open_mode
    then if_open (stream_of fs file) (prerequisites_not_met, (fs, file))
        (write_open host bytes fs file)
    else (prerequisites_not_met, (fs, file))

-- `writeBlocking` returns the error of `addEvent`, which is that of the callback only where the event
-- runs at once.
unfoldable pub write_blocking : Host → Delivery → Text → State → ErrorType × State
unfolding write_callback
write_blocking host Delivery.runs_now bytes s = write_callback host bytes s
write_blocking host Delivery.queued bytes s = (success, (write_callback host bytes s).1)
write_blocking host Delivery.refused bytes s = (limit_reached, s)
write_blocking host Delivery.abandoned bytes s = (success, s)
