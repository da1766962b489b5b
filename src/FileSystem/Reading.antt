-- ===== src/FileSystem/Reading.antt =====
-- Modules/Storage/Linux/FileSystemModule.cpp: what `readBlocking` returns, and what it leaves behind.
use abstraction_layer.Prelude.{
  ℕ, zero, suc, ◌+◌, ◌≤◌, ◌<◌, ◌≡◌, refl, ap, sym, ◌∙◌, true, false, some, [], ◌∷◌, ◌++◌, ◌==◌,
  if◌then◌else◌, length, add32, u32, ltb, arith, ltb→lt, ltb-false, ==_self, Bool-cases, inl, inr,
}
use abstraction_layer.Prelude.Text.{Text, take, drop}
use abstraction_layer.Prelude.Text.Laws.{take_all, take-drop, length-take, length-drop, drop-drop}
use abstraction_layer.Error.{ErrorType, success, end_of_file, is_success}
use abstraction_layer.FileSystem.Streams.{Stream, content_of}
use abstraction_layer.FileSystem.{
  OpenFiles, File, FileSystem, State, Delivery, path_key, find_stream, set_stream, opened,
  stream_of, with_stream, can_read_from_file,
}
use abstraction_layer.FileSystem.Calls.{read_open, read_callback, read_blocking}

pub find-set_stream :
    (key : ℕ) (s : Stream) (files : OpenFiles) → find_stream key (set_stream key s files) ≡ some s
unfolding find_stream set_stream
find-set_stream key s [] = rw (==_self key) refl
find-set_stream key s ((k, t) ∷ files) = elim (Bool-cases (k == key)) [
  | inl e ↦ rw (e, e) refl
  | inr e ↦ rw (e, e) (find-set_stream key s files)
]

-- The stream that a call leaves for an open file is the one that the next call finds.
pub stream_of-with_stream :
    (fs : FileSystem) (file : File) (s : Stream)
    → s.is_open ≡ true
    → stream_of (with_stream fs file s) file ≡ some s
unfolding stream_of with_stream
stream_of-with_stream fs file s h =
    ap opened (find-set_stream (path_key file.path) s fs.open_files) ∙ rw h refl

-- A file that can be read: it is open in a mode with input, and its stream has no failure.
pub record IsReadable (fs : FileSystem) (file : File) (s : Stream) : Type 0 where
  pub found : stream_of fs file ≡ some s
  pub opened : s.is_open ≡ true
  pub input : s.flags.input ≡ true
  pub readable : can_read_from_file file.open_mode ≡ true
  pub clean : s.failed ≡ false

-- The stream after a read of `n` characters at an offset.
abbrev pub after_read : ℕ → ℕ → Text → Stream → Stream
after_read n offset rest s =
    let short = ltb (length rest) n in
    record s { eof = short; failed = short; position = offset + length (take n rest) }

-- What is left of a file.
abbrev pub rest_of : FileSystem → File → Stream → Text
rest_of fs file s = drop file.file_pointer (content_of s fs.disk)

read_open_lem :
    (n : ℕ) (fs : FileSystem) (file : File) (s : Stream)
    → IsReadable fs file s
    → read_open n fs file s ≡ (
        let rest = rest_of fs file s in
        (
          take n rest,
          (
            if ltb (length rest) n then end_of_file else success,
            (
              with_stream fs file (after_read n file.file_pointer rest s),
              record file { file_pointer = add32 file.file_pointer (length (take n rest)) },
            ),
          ),
        ))
unfolding read_open
read_open_lem n fs file s h = rw (h.clean, h.input) refl

pub read_callback_lem :
    (n : ℕ) (fs : FileSystem) (file : File) (s : Stream)
    → IsReadable fs file s
    → read_callback n (fs, file) ≡ (
        let rest = rest_of fs file s in
        (
          take n rest,
          (
            if ltb (length rest) n then end_of_file else success,
            (
              with_stream fs file (after_read n file.file_pointer rest s),
              record file { file_pointer = add32 file.file_pointer (length (take n rest)) },
            ),
          ),
        ))
unfolding read_callback
read_callback_lem n fs file s h = rw (h.readable, h.found) (read_open_lem n fs file s h)

-- The stream, and the file, after a read that is not short.
abbrev read_on : ℕ → FileSystem → File → Stream → Stream
read_on n fs file s = record s {
  eof = false;
  failed = false;
  position = file.file_pointer + length (take n (rest_of fs file s));
}

abbrev moved_on : ℕ → FileSystem → File → Stream → File
moved_on n fs file s = record file {
  file_pointer = add32 file.file_pointer (length (take n (rest_of fs file s)));
}

-- After a read that is not short the file can be read on, from where the read ended.
read_on-IsReadable :
    (n : ℕ) (fs : FileSystem) (file : File) (s : Stream)
    → IsReadable fs file s
    → IsReadable
        (with_stream fs file (read_on n fs file s))
        (moved_on n fs file s)
        (read_on n fs file s)
unfolding with_stream stream_of
read_on-IsReadable n fs file s h = record {
  found = stream_of-with_stream fs file (read_on n fs file s) h.opened;
  opened = h.opened;
  input = h.input;
  readable = h.readable;
  clean = refl;
}

rest_moved :
    (n : ℕ) (fs : FileSystem) (file : File) (s : Stream)
    → n ≤ length (rest_of fs file s)
    → file.file_pointer + n < u32
    → rest_of
        (with_stream fs file (read_on n fs file s))
        (moved_on n fs file s)
        (read_on n fs file s)
      ≡ drop n (rest_of fs file s)
unfolding with_stream content_of
rest_moved n fs file s enough fits =
    ap (λ k. drop k (content_of s fs.disk)) {y = file.file_pointer + n}
      (omega (arith, length-take n (rest_of fs file s) enough))
    ∙ sym (drop-drop n file.file_pointer (content_of s fs.disk))

-- A caller that reads blocks of `n` characters until a call does not return `Success`: what it has
-- read, and the last error. At most `fuel` calls are made.
unfoldable pub read_all : ℕ → ℕ → State → Text × ErrorType
read_all zero n state = ([], success)
read_all (suc fuel) n state =
    let read = read_blocking Delivery.queued n state in
    let more = read_all fuel n read.1.1 in
    if is_success read.1.0 then (read.0 ++ more.0, more.1) else (read.0, read.1.0)

-- Blocks of any size above 0 read all of a file from the file pointer on and end with `EndOfFile`, for a
-- file whose size fits 32 bits; one call more than there are characters is enough.
pub read_all-rest :
    (fuel n : ℕ) (fs : FileSystem) (file : File) (s : Stream)
    → IsReadable fs file s
    → 0 < n
    → file.file_pointer + length (rest_of fs file s) < u32
    → length (rest_of fs file s) < fuel
    → read_all fuel n (fs, file) ≡ (rest_of fs file s, end_of_file)
unfolding read_all read_blocking
read_all-rest zero n fs file s h pos fits enough = absurd (omega arith)
read_all-rest (suc fuel) n fs file s h pos fits enough =
    let rest = rest_of fs file s in
    elim (Bool-cases (ltb (length rest) n)) [
      | inl e ↦
          rw (read_callback_lem n fs file s h, e)
            (ap (λ t. (t, end_of_file)) (take_all n rest (omega (arith, ltb→lt (length rest) n e))))
      | inr e ↦
          let room : n ≤ length rest = ltb-false (length rest) n e in
          let fs' = with_stream fs file (read_on n fs file s) in
          let file' = moved_on n fs file s in
          let s' = read_on n fs file s in
          let moved = rest_moved n fs file s room (omega arith) in
          let later : read_all fuel n (fs', file') ≡ (drop n rest, end_of_file) =
            read_all-rest fuel n fs' file' s' (read_on-IsReadable n fs file s h) pos
              (rw moved (omega (arith, length-take n rest room, length-drop n rest room)))
              (rw moved (omega (arith, length-drop n rest room)))
            ∙ ap (λ t. (t, end_of_file)) moved in
          rw (read_callback_lem n fs file s h, e, later)
            (ap (λ t. (t, end_of_file)) (take-drop n rest))
    ]
