-- ===== src/FileSystem/Writing.antt =====
-- Modules/Storage/Linux/FileSystemModule.cpp: what `writeBlocking` returns, and what is read after it.
use abstraction_layer.Prelude.{◌≡◌, refl, true, false, some, ◌++◌, length, add32}
use abstraction_layer.Prelude.Text.{Text}
use abstraction_layer.Error.{success}
use abstraction_layer.FileSystem.Streams.{Host, Stream, content_of, store}
use abstraction_layer.FileSystem.{
  File, FileSystem, Delivery, stream_of, with_stream, can_write_to_file,
}
use abstraction_layer.FileSystem.Calls.{write_open, write_callback, write_blocking}
use abstraction_layer.FileSystem.Reading.{IsReadable}

-- Where the machine does not store the characters, `writeBlocking` returns `Success` to another thread,
-- and the file and its size are as before.
pub write_blocking_masks :
    (host : Host) (bytes : Text) (fs : FileSystem) (file : File) (s : Stream)
    → stream_of fs file ≡ some s
    → can_write_to_file file.open_mode ≡ true
    → s.eof ≡ false
    → s.failed ≡ false
    → host.stores s.path bytes ≡ false
    → (let after = write_blocking host Delivery.queued bytes (fs, file) in
        (after.0 ≡ success) × ((after.1.0.disk ≡ fs.disk) × (after.1.1 ≡ file)))
unfolding write_blocking write_callback write_open
write_blocking_masks host bytes fs file s found writes eof failed refused =
    rw (writes, found, eof, failed, refused) (refl, (refl, refl))

-- What `writeBlocking` needs to append to a file.
pub record IsAppended (host : Host) (bytes : Text) (fs : FileSystem) (file : File) (s : Stream)
    : Type 0 where
  pub readable : IsReadable fs file s
  pub append : s.flags.append ≡ true
  pub writable : can_write_to_file file.open_mode ≡ true
  pub no_end : s.eof ≡ false
  pub stores : host.stores s.path bytes ≡ true
  pub flushes : host.flushes s.path ≡ true

-- The stream, the disk and the file behind the write.
abbrev written_stream : Text → FileSystem → Stream → Stream
written_stream bytes fs s = record s { position = length (content_of s fs.disk ++ bytes) }

abbrev stored : Text → FileSystem → File → Stream → FileSystem
stored bytes fs file s = record (with_stream fs file (written_stream bytes fs s)) {
  disk = store s.path (some (content_of s fs.disk ++ bytes)) fs.disk;
}

abbrev grown_file : Text → File → File
grown_file bytes file = record file { size = add32 file.size (length bytes) }

-- What `writeBlocking` leaves behind.
abbrev behind : Text → FileSystem → File → Stream → FileSystem
behind bytes fs file s = with_stream (stored bytes fs file s) file (written_stream bytes fs s)
