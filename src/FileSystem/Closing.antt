-- ===== src/FileSystem/Closing.antt =====
-- Modules/Storage/Linux/FileSystemModule.cpp: `close` of a file that was read to its end.
use abstraction_layer.Prelude.{
  ℕ, ◌<◌, ◌≡◌, refl, ap, ◌∙◌, true, false, some, length, lt→ltb, ◌+◌, add32,
}
use abstraction_layer.Prelude.Text.{take}
use abstraction_layer.Error.{success, failure, prerequisites_not_met}
use abstraction_layer.FileSystem.Streams.{Host, Stream, clear}
use abstraction_layer.FileSystem.{
  File, FileSystem, Delivery, stream_of, with_stream, can_read_from_file, can_write_to_file,
}
use abstraction_layer.FileSystem.Calls.{
  read_open, read_callback, read_blocking, close, close_callback, synchronize, synchronize_callback,
  synchronize_stream, closed,
}
use abstraction_layer.FileSystem.Reading.{
  stream_of-with_stream, IsReadable, rest_of, read_callback_lem,
}

stream_of-moved :
    (fs : FileSystem) (file : File) (s : Stream) (p : ℕ)
    → s.is_open ≡ true
    → stream_of (with_stream fs file s) (record file { file_pointer = p }) ≡ some s
unfolding stream_of
stream_of-moved fs file s p h = stream_of-with_stream fs file s h

read_failed :
    (n : ℕ) (fs : FileSystem) (file : File) (s : Stream)
    → stream_of fs file ≡ some s
    → can_read_from_file file.open_mode ≡ true
    → s.failed ≡ true
    → (read_callback n (fs, file)).1.0 ≡ prerequisites_not_met
unfolding read_callback read_open
read_failed n fs file s found readable failed = rw (readable, found, failed) refl

-- `synchronize` on a stream with a failure, or without.
synchronize_failed :
    (host : Host) (fs : FileSystem) (file : File) (s : Stream)
    → host.flushes s.path ≡ true
    → can_write_to_file file.open_mode ≡ true
    → s.eof ≡ true
    → synchronize_stream host fs file s ≡ (failure, (with_stream fs file (clear s), file))
unfolding synchronize_stream
synchronize_failed host fs file s flushes writes eof = rw (flushes, eof, writes) refl

synchronize_clean :
    (host : Host) (fs : FileSystem) (file : File) (s : Stream)
    → host.flushes s.path ≡ true
    → synchronize_stream host fs file (clear s) ≡ (success, (with_stream fs file (clear s), file))
unfolding synchronize_stream
synchronize_clean host fs file s flushes = rw flushes refl

close-synchronize :
    (host : Host) (fs : FileSystem) (file : File) (s : Stream)
    → stream_of fs file ≡ some s
    → close_callback host (fs, file) ≡ closed (synchronize_stream host fs file s)
unfolding close_callback synchronize synchronize_callback
close-synchronize host fs file s found = rw found refl

-- A short read of a file that is open for writing too leaves its stream with a failure, so the next
-- read has no result. A `close` after the short read returns `Failure`; the file is as it was, and its
-- stream is still open. A second `close` is `Success`, and the file is not open then.
pub close_after_end :
    (host : Host) (n : ℕ) (fs : FileSystem) (file : File) (s : Stream)
    → IsReadable fs file s
    → length (rest_of fs file s) < n
    → can_write_to_file file.open_mode ≡ true
    → host.flushes s.path ≡ true
    → (let state = (read_blocking Delivery.queued n (fs, file)).1.1 in
        let once = close host Delivery.queued state in
        ((read_blocking Delivery.queued n state).1.0 ≡ prerequisites_not_met)
        × (once.0 ≡ failure)
        × (once.1.1 ≡ state.1)
        × ((t : Stream) × (stream_of once.1.0 once.1.1 ≡ some t) × (t.is_open ≡ true))
        × ((close host Delivery.queued once.1).0 ≡ success)
        × ((close host Delivery.queued once.1).1.1.is_open ≡ false))
unfolding read_blocking close
close_after_end host n fs file s h short writes flushes =
    let rest = rest_of fs file s in
    let s' : Stream = record s {
      eof = true;
      failed = true;
      position = file.file_pointer + length (take n rest);
    } in
    let fs' = with_stream fs file s' in
    let file' : File = record file {
      file_pointer = add32 file.file_pointer (length (take n rest));
    } in
    let found' =
      stream_of-moved fs file s' (add32 file.file_pointer (length (take n rest))) h.opened in
    let once : close_callback host (fs', file')
        ≡ (failure, (with_stream fs' file' (clear s'), file')) =
      close-synchronize host fs' file' s' found'
      ∙ ap closed (synchronize_failed host fs' file' s' flushes writes refl) in
    let cleared = with_stream fs' file' (clear s') in
    let twice =
      close-synchronize host cleared file' (clear s')
        (stream_of-with_stream fs' file' (clear s') h.opened)
      ∙ ap closed (synchronize_clean host cleared file' s' flushes) in
    rw (read_callback_lem n fs file s h, lt→ltb (length rest) n short, once, twice)
      (
        read_failed n fs' file' s' found' h.readable refl,
        refl,
        refl,
        (clear s', stream_of-with_stream fs' file' (clear s') h.opened, h.opened),
        refl,
        refl,
      )
