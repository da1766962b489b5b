-- ===== src/Http/Read/Lines.antt =====
-- Abstractions/Http/HttpTypes.hpp: the request line, written and read.
use abstraction_layer.Prelude.{
  ℕ, suc, ◌+◌, ◌≡◌, refl, ap, ap₂, ◌∙◌, append_assoc, Bool, true, false, Option, none, some, List,
  [], ◌∷◌, ◌++◌, length, length-append, leb, arith, ◌-◌, if◌then◌else◌, lt→leb,
}
use abstraction_layer.Prelude.Text.{Text, codes, take, drop, shift, find, is_prefix}
use abstraction_layer.Prelude.Text.Laws.{
  Lacks, All, All-append, find_past, find_here, find_missing, find_missing_here, drop-append,
  take-append,
}
use abstraction_layer.Http.Types.{Method, Version, RequestLine}
use abstraction_layer.Http.Print.{to_string_method, to_string_version}
use abstraction_layer.Http.Read.{
  found_at, first_found, method_names, version_names, read_uri, line_between, read_request_line,
}

-- The methods that `ToHttpRequest` knows.
abbrev pub is_read : Method → Bool
is_read Method.get = true
is_read Method.post = true
is_read Method.put = true
is_read Method.connect = true
is_read Method.delete = true
is_read _ = false

-- None of the names of a table occurs in the text.
abbrev pub Misses : {A : Type 0} → List (Text × A) → Text → Type 0
Misses table text = All (λ entry. find entry.0 text ≡ none) table

method_found :
    (m : Method) (rest : Text)
    → is_read m ≡ true
    → Misses method_names rest
    → (size : ℕ) × (first_found method_names (to_string_method m ++ rest) ≡ some (m, 0, size))
      × (size + 1 ≡ length (to_string_method m))
unfolding first_found to_string_method is_prefix
method_found Method.get rest h missing = (3, rw (find_here (codes "GET") (32 ∷ rest)) refl, refl)
method_found Method.post rest h (get, missing) = (
  4,
  rw
      (
        find_missing b'G' (codes "ET") (codes "POST ") rest (omega arith) get,
        find_here (codes "POST") (32 ∷ rest),
      )
      refl,
  refl,
)
method_found Method.put rest h (get, (post, missing)) = (
  3,
  rw
      (
        find_missing b'G' (codes "ET") (codes "PUT ") rest (omega arith) get,
        find_missing_here b'P' (codes "OST") (codes "UT ") rest refl (omega arith) post,
        find_here (codes "PUT") (32 ∷ rest),
      )
      refl,
  refl,
)
method_found Method.connect rest h (get, (post, (put, missing))) = (
  7,
  rw
      (
        find_missing b'G' (codes "ET") (codes "CONNECT ") rest (omega arith) get,
        find_missing b'P' (codes "OST") (codes "CONNECT ") rest (omega arith) post,
        find_missing b'P' (codes "UT") (codes "CONNECT ") rest (omega arith) put,
        find_here (codes "CONNECT") (32 ∷ rest),
      )
      refl,
  refl,
)
method_found Method.delete rest h (get, (post, (put, (connect, missing)))) = (
  6,
  rw
      (
        find_missing b'G' (codes "ET") (codes "DELETE ") rest (omega arith) get,
        find_missing b'P' (codes "OST") (codes "DELETE ") rest (omega arith) post,
        find_missing b'P' (codes "UT") (codes "DELETE ") rest (omega arith) put,
        find_missing b'C' (codes "ONNECT") (codes "DELETE ") rest (omega arith) connect,
        find_here (codes "DELETE") (32 ∷ rest),
      )
      refl,
  refl,
)
method_found Method.unknown rest h missing = cc
method_found Method.head rest h missing = cc
method_found Method.options rest h missing = cc
method_found Method.trace rest h missing = cc

abbrev pub is_known : Version → Bool
is_known Version.unknown = false
is_known _ = true

version_here :
    (v : Version) (rest : Text)
    → is_known v ≡ true
    → Misses version_names rest
    → first_found version_names (to_string_version v ++ rest) ≡ some (v, 0, 8)
unfolding first_found to_string_version is_prefix
version_here Version.unknown rest h missing = cc
version_here Version.http1_0 rest h missing = rw (find_here (codes "HTTP/1.0") rest) refl
version_here Version.http1_1 rest h (v10, missing) =
    rw
      (
        find_missing_here b'H' (codes "TTP/1.0") (codes "TTP/1.1") rest refl (omega arith) v10,
        find_here (codes "HTTP/1.1") rest,
      )
      refl
version_here Version.http2_0 rest h (v10, (v11, missing)) =
    rw
      (
        find_missing_here b'H' (codes "TTP/1.0") (codes "TTP/2.0") rest refl (omega arith) v10,
        find_missing_here b'H' (codes "TTP/1.1") (codes "TTP/2.0") rest refl (omega arith) v11,
        find_here (codes "HTTP/2.0") rest,
      )
      refl
version_here Version.http3_0 rest h (v10, (v11, (v20, missing))) =
    rw
      (
        find_missing_here b'H' (codes "TTP/1.0") (codes "TTP/3.0") rest refl (omega arith) v10,
        find_missing_here b'H' (codes "TTP/1.1") (codes "TTP/3.0") rest refl (omega arith) v11,
        find_missing_here b'H' (codes "TTP/2.0") (codes "TTP/3.0") rest refl (omega arith) v20,
        find_here (codes "HTTP/3.0") rest,
      )
      refl

-- An entry, that much further.
abbrev further : ℕ → Option (Version × ℕ × ℕ) → Option (Version × ℕ × ℕ)
further n none = none
further n (some (v, i, size)) = some (v, n + i, size)

found_at-further :
    (v : Version) (size n : ℕ) (later : Option (Version × ℕ × ℕ)) (o : Option ℕ)
    → found_at v size (further n later) (shift n o) ≡ further n (found_at v size later o)
found_at-further v size n later none = refl
found_at-further v size n later (some i) = refl

version_further :
    (before rest : Text)
    → Lacks b'H' before
    → first_found version_names (before ++ rest)
      ≡ further (length before) (first_found version_names rest)
unfolding first_found
version_further before rest lacks =
    rw
      (
        find_past b'H' (codes "TTP/1.0") before rest lacks,
        find_past b'H' (codes "TTP/1.1") before rest lacks,
        find_past b'H' (codes "TTP/2.0") before rest lacks,
        find_past b'H' (codes "TTP/3.0") before rest lacks,
      )
      (ground (
        arith,
        found_at-further Version.http1_0 8 (length before),
        found_at-further Version.http1_1 8 (length before),
        found_at-further Version.http2_0 8 (length before),
        found_at-further Version.http3_0 8 (length before),
      ))

take_uri :
    (stop start : ℕ) (uri rest : Text)
    → stop ≡ start + length uri
    → (if leb stop start then [] else take (stop - start) (uri ++ rest)) ≡ uri
take_uri stop start [] rest h = ground arith
take_uri stop start (c ∷ uri) rest h = rw (lt→leb start stop (omega arith)) (
    ap (λ n. take n ((c ∷ uri) ++ rest)) {y = length (c ∷ uri)} (omega arith)
    ∙ take-append (c ∷ uri) rest)

read_uri_between :
    (m : Method) (v : Version) (method uri rest : Text) (size : ℕ) (old : Text)
    → size + 1 ≡ length method
    → read_uri
        (some (m, 0, size))
        (some (v, suc (length method + length uri), 8))
        (method ++ (uri ++ rest))
        old
      ≡ uri
unfolding read_uri
read_uri_between m v method uri rest size old h =
    let skipped : drop (0 + size + 1) (method ++ (uri ++ rest)) ≡ uri ++ rest =
      ap (λ n. drop n (method ++ (uri ++ rest))) (omega arith) ∙ drop-append method (uri ++ rest) in
    rw skipped (take_uri (length method + length uri) (0 + size + 1) uri rest (omega arith))

method_Lacks : (m : Method) → is_read m ≡ true → Lacks b'H' (to_string_method m)
unfolding to_string_method
method_Lacks Method.get h = omega arith
method_Lacks Method.post h = omega arith
method_Lacks Method.put h = omega arith
method_Lacks Method.connect h = omega arith
method_Lacks Method.delete h = omega arith
method_Lacks Method.unknown h = cc
method_Lacks Method.head h = cc
method_Lacks Method.options h = cc
method_Lacks Method.trace h = cc

-- The request line that `FromHttpRequest` writes for one of the five methods is read again, if no
-- name of a method occurs behind the method, no `H` in the URI and no version behind the version.
pub read_request_line-write :
    (m : Method) (v : Version) (uri rest : Text) (old : RequestLine)
    → is_read m ≡ true
    → is_known v ≡ true
    → Lacks b'H' uri
    → Misses method_names (uri ++ (codes " " ++ (to_string_version v ++ rest)))
    → Misses version_names rest
    → read_request_line
        (to_string_method m ++ (uri ++ (codes " " ++ (to_string_version v ++ rest))))
        old
      ≡ record { method = m; uri = uri; version = v }
unfolding read_request_line
read_request_line-write m v uri rest old hm hv lacks methods versions =
    let method = to_string_method m in
    let behind = to_string_version v ++ rest in
    let before = method ++ (uri ++ codes " ") in
    let text = method ++ (uri ++ (codes " " ++ behind)) in
    let (size, found, sizes) = method_found m (uri ++ (codes " " ++ behind)) hm methods in
    let lacks_all =
      All-append _ method (uri ++ codes " ") (method_Lacks m hm)
        (All-append _ uri (codes " ") lacks (omega arith)) in
    let found_version : first_found version_names text
        ≡ some (v, suc (length method + length uri), 8) =
      ap (first_found version_names) {x = text} {y = before ++ behind} (simp append_assoc)
      ∙ version_further before behind lacks_all
      ∙ ap (further (length before)) (version_here v rest hv versions)
      ∙ ap (λ i. some (v, i, 8))
          (omega (arith, length-append method (uri ++ codes " "), length-append uri (codes " "))) in
    ap₂ (λ a b. line_between a b text old) found found_version
    ∙ ap (λ u. record { method = m; uri = u; version = v })
        (read_uri_between m v method uri (codes " " ++ behind) size old.uri sizes)
