-- ===== src/FileSystem/Examples.antt =====
-- Modules/Storage/Linux/FileSystemModule.cpp: a file that is written and read, and the theorems.
use abstraction_layer.Prelude.{ℕ, ◌≡◌, refl, true, false, none, some, [], ◌∷◌, arith}
use abstraction_layer.Prelude.Text.{Text, codes}
use abstraction_layer.Error.{ErrorType, success, failure, end_of_file, prerequisites_not_met}
use abstraction_layer.FileSystem.Streams.{Host, Stream, new_stream, content_of, is_good}
use abstraction_layer.FileSystem.{
  can_read_from_file, can_write_to_file, OpenMode, File, FileSystem, State, Delivery, path_key,
  stream_of,
}
use abstraction_layer.FileSystem.Reading.{IsReadable, read_all, read_all-rest}
use abstraction_layer.FileSystem.Closing.{close_after_end}
use abstraction_layer.FileSystem.Writing.{write_blocking_masks}
use abstraction_layer.FileSystem.Calls.{
  open_file, write_blocking, read_blocking, close, open_new, size_stream, write_open, synchronize,
  synchronize_stream, read_open,
}

abbrev host : Host
host = record { opens = λ p. true; stores = λ p t. true; flushes = λ p. true; removes = λ p. true }

abbrev start : State
start = (
  record {
    mount_prefix = codes "/m/";
    is_initialized = true;
    opened_files = 0;
    open_files = [];
    disk = λ p. none;
  },
  record { path = []; size = 0; file_pointer = 0; open_mode = OpenMode.unknown; is_open = false },
)

abbrev opened_file : State
opened_file = (open_file host Delivery.queued (codes "a") OpenMode.read_write_append start).1

abbrev written_file : State
written_file = (write_blocking host Delivery.queued (codes "hello") opened_file).1

abbrev read_three : Text × (ErrorType × State)
read_three = read_blocking Delivery.queued 3 written_file

abbrev read_ten : Text × (ErrorType × State)
read_ten = read_blocking Delivery.queued 10 read_three.1.1

abbrev read_again : Text × (ErrorType × State)
read_again = read_blocking Delivery.queued 10 read_ten.1.1

two_reads : (read_three.0 ≡ codes "hel") × (read_ten.0 ≡ codes "lo") × (read_ten.1.0 ≡ end_of_file)
unfolding open_file write_blocking read_blocking close stream_of can_read_from_file
    can_write_to_file open_new is_good size_stream write_open synchronize synchronize_stream
    read_open
two_reads = (refl, refl, refl)

third_read : (read_again.0 ≡ []) × (read_again.1.0 ≡ prerequisites_not_met)
unfolding open_file write_blocking read_blocking close stream_of can_read_from_file
    can_write_to_file open_new is_good size_stream write_open synchronize synchronize_stream
    read_open
third_read = (refl, refl)

closed_twice :
    ((close host Delivery.queued read_ten.1.1).0 ≡ failure)
    × ((close host Delivery.queued (close host Delivery.queued read_ten.1.1).1).0 ≡ success)
unfolding open_file write_blocking read_blocking close stream_of can_read_from_file
    can_write_to_file open_new is_good size_stream write_open synchronize synchronize_stream
    read_open
closed_twice = (refl, refl)

-- Two paths with one key.
same_key : path_key (codes "declinate") ≡ path_key (codes "macallums")
unfolding path_key
same_key = refl

-- An open file with five characters, and its stream.
abbrev stream : Stream
stream = record new_stream {
  path = codes "/m/a";
  is_open = true;
  flags = record { input = true; append = true; truncate = false; at_end = false };
}

abbrev five : FileSystem
five = record {
  mount_prefix = codes "/m/";
  is_initialized = true;
  opened_files = 1;
  open_files = (path_key (codes "a"), stream) ∷ [];
  disk = λ p. some (codes "hello");
}

abbrev file_at : ℕ → File
file_at p = record {
  path = codes "a";
  size = 5;
  file_pointer = p;
  open_mode = OpenMode.read_write_append;
  is_open = true;
}

file_at-IsReadable : (p : ℕ) → IsReadable five (file_at p) stream
unfolding stream_of path_key can_read_from_file
file_at-IsReadable p = record {
  found = refl;
  opened = refl;
  input = refl;
  readable = refl;
  clean = refl;
}

read_all-rest_example : read_all 6 2 (five, file_at 1) ≡ (codes "ello", end_of_file)
unfolding content_of
read_all-rest_example =
    read_all-rest 6 2 five (file_at 1) stream (file_at-IsReadable 1) (omega arith) (omega arith)
      (omega arith)

close_after_end_example :
    (let state = (read_blocking Delivery.queued 9 (five, file_at 0)).1.1 in
      let once = close host Delivery.queued state in
      ((read_blocking Delivery.queued 9 state).1.0 ≡ prerequisites_not_met)
      × (once.0 ≡ failure)
      × (once.1.1 ≡ state.1)
      × ((t : Stream) × (stream_of once.1.0 once.1.1 ≡ some t) × (t.is_open ≡ true))
      × ((close host Delivery.queued once.1).0 ≡ success)
      × ((close host Delivery.queued once.1).1.1.is_open ≡ false))
unfolding content_of can_write_to_file
close_after_end_example =
    close_after_end host 9 five (file_at 0) stream (file_at-IsReadable 0) (omega arith) refl refl

abbrev full_host : Host
full_host = record host { stores = λ p t. false }

write_blocking_masks_test :
    (let after = write_blocking full_host Delivery.queued (codes "!") (five, file_at 5) in
      (after.0 ≡ success) × ((after.1.0.disk ≡ five.disk) × (after.1.1 ≡ file_at 5)))
unfolding stream_of path_key can_write_to_file
write_blocking_masks_test =
    write_blocking_masks full_host (codes "!") five (file_at 5) stream refl refl refl refl refl
