-- ===== src/FileSystem/Streams.antt =====
-- What FileSystemModule.cpp uses of `std::fstream` and `std::remove`, on a disk of texts. All streams
-- of the module are opened for output.
use abstraction_layer.Prelude.{
  ℕ, ◌+◌, Bool, true, false, ◌&&◌, ◌||◌, not, Option, none, some, [], ◌∷◌, ◌++◌, ◌==◌,
  if◌then◌else◌, length, ltb,
}
use abstraction_layer.Prelude.Text.{Text, take, drop, is_some}

-- The contents of the files that exist, by their absolute paths.
abbrev pub Disk : Type 0
Disk = Text → Option Text

-- What the machine allows: to open a path, to store a text in a file, to write a file back, and to
-- remove a path.
pub record Host : Type 0 where
  pub opens : Text → Bool
  pub stores : Text → Text → Bool
  pub flushes : Text → Bool
  pub removes : Text → Bool

-- `std::ios_base::openmode`; output is always set.
pub record Flags : Type 0 where
  pub input : Bool
  pub append : Bool
  pub truncate : Bool
  pub at_end : Bool

-- `failed` is `failbit` or `badbit`.
pub record Stream : Type 0 where
  pub path : Text
  pub is_open : Bool
  pub flags : Flags
  pub eof : Bool
  pub failed : Bool
  pub position : ℕ

abbrev pub new_stream : Stream
new_stream = record {
  path = [];
  is_open = false;
  flags = record { input = false; append = false; truncate = false; at_end = false };
  eof = false;
  failed = false;
  position = 0;
}

unfoldable pub equal_text : Text → Text → Bool
equal_text [] [] = true
equal_text [] (y ∷ ys) = false
equal_text (x ∷ xs) [] = false
equal_text (x ∷ xs) (y ∷ ys) = (x == y) && equal_text xs ys

unfoldable pub store : Text → Option Text → Disk → Disk
unfolding equal_text
store path content disk p = if equal_text p path then content else disk p

abbrev pub or_empty : Option Text → Text
or_empty none = []
or_empty (some content) = content

-- The content of the file of a stream.
unfoldable pub content_of : Stream → Disk → Text
content_of s disk = or_empty (disk s.path)

-- `open` creates the file if it does not exist.
unfoldable pub open_stream : Host → Text → Flags → Disk → Stream × Disk
unfolding store
open_stream host path flags disk =
    let content = if flags.truncate then [] else or_empty (disk path) in
    if host.opens path
    then (
      record {
        path = path;
        is_open = true;
        flags = flags;
        eof = false;
        failed = false;
        position = if flags.at_end then length content else 0;
      },
      store path (some content) disk,
    )
    else (record new_stream { failed = true }, disk)

-- `good()`.
unfoldable pub is_good : Stream → Bool
is_good s = not (s.eof || s.failed)

-- `clear()`.
abbrev pub clear : Stream → Stream
clear s = record s { eof = false; failed = false }

-- `seekg(offset, beg)` clears `eofbit` first.
unfoldable pub seek_get : ℕ → Stream → Stream
seek_get offset s =
    if s.failed then record s { eof = false } else record s { eof = false; position = offset }

-- `seekg(0, end)`.
unfoldable pub seek_get_end : Disk → Stream → Stream
unfolding content_of
seek_get_end disk s =
    if s.failed
    then record s { eof = false }
    else record s { eof = false; position = length (content_of s disk) }

-- `seekp(offset, beg)` leaves `eofbit` alone.
unfoldable pub seek_put : ℕ → Stream → Stream
seek_put offset s = if s.failed then s else record s { position = offset }

-- `read` of `n` characters, and what it reads; reading past the end sets `eofbit` and `failbit`.
unfoldable pub read_stream : ℕ → Disk → Stream → Text × Stream
unfolding is_good content_of
read_stream n disk s =
    let rest = if s.flags.input then drop s.position (content_of s disk) else [] in
    let bytes = take n rest in
    let short = ltb (length rest) n in
    if is_good s
    then (bytes, record s { eof = short; failed = short; position = s.position + length bytes })
    else ([], record s { failed = true })

-- The content after a write, at the end or over what stands at the position.
unfoldable pub written : Text → Text → Stream → Text
written bytes content s =
    if s.flags.append
    then content ++ bytes
    else take s.position content ++ (bytes ++ drop (s.position + length bytes) content)

-- `write`, where the position is within the file.
unfoldable pub write_stream : Host → Text → Disk → Stream → Stream × Disk
unfolding is_good content_of written store
write_stream host bytes disk s =
    let content = written bytes (content_of s disk) s in
    let position = if s.flags.append then length content else s.position + length bytes in
    if is_good s
    then (if host.stores s.path bytes
        then (record s { position = position }, store s.path (some content) disk)
        else (record s { failed = true }, disk))
    else (record s { failed = true }, disk)

unfoldable pub flush : Host → Stream → Stream
unfolding is_good
flush host s = if host.flushes s.path then s else record s { failed = true }

-- `std::remove`; whether it returns 0.
unfoldable pub erase_file : Host → Text → Disk → Bool × Disk
unfolding store
erase_file host path disk =
    let exists = is_some (disk path) in
    if host.removes path && exists then (true, store path none disk) else (false, disk)
