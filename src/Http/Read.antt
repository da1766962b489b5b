-- ===== src/Http/Read.antt =====
-- Abstractions/Http/HttpTypes.hpp, `ToHttpRequest`: a request, read from the bytes of the network.
-- A chain of tests for one name after the other is a table of names and a search in it.
pub mod ContentLength
pub mod Encodings
pub mod Lines
pub mod Spoken
pub mod Paired
pub mod Printed
use abstraction_layer.Prelude.{
  ℕ, zero, suc, ◌+◌, ◌-◌, ◌%◌, Bool, ◌||◌, Option, none, some, List, [], ◌∷◌, ◌++◌, leb, ltb,
  if◌then◌else◌, length, u32,
}
use abstraction_layer.Prelude.Text.{
  Text, codes, line_end, take, drop, find, find_from, contains, stoul,
}
use abstraction_layer.Error.{ErrorType, success, failure, no_data, is_success}
use abstraction_layer.Http.Languages.{Language}
use abstraction_layer.Http.Tags.{ReadTag, read_tags}
use abstraction_layer.Http.Types.{
  MimeType, Method, Version, Connection, Encoding, RequestLine, Request,
}

-- The value is searched for in as many characters from the start of the header on as the index of
-- its end says.
unfoldable pub value_between : Text → Text → Option ℕ → Option ℕ → ErrorType
unfolding contains
value_between request value (some start) (some stop) =
    if contains value (take stop (drop start request)) then success else failure
value_between request value _ _ = failure

-- The assertion compares the two indices; it holds.
unfoldable pub find_header_value : Text → Text → Text → ErrorType
unfolding find_from value_between
find_header_value request name value =
    let start = find name request in
    value_between request value start (find_from line_end request start)

unfoldable pub has_header : Text → Text → Text → Bool
unfolding find_header_value
has_header request name value = is_success (find_header_value request name value)

module _ {A : Type 0} where
  -- An entry at an index, or else what the other entries give.
  abbrev pub found_at : A → ℕ → Option (A × ℕ × ℕ) → Option ℕ → Option (A × ℕ × ℕ)
  found_at a size later (some i) = some (a, i, size)
  found_at a size later none = later

  -- The first entry whose name is found: what it stands for, the index and the size of the name.
  unfoldable pub first_found : List (Text × A) → Text → Option (A × ℕ × ℕ)
  first_found [] text = none
  first_found ((name, a) ∷ table) text =
      found_at a (length name) (first_found table text) (find name text)

  -- The first entry whose value the header has, or else the value that is there.
  unfoldable pub first_value : Text → List (Text × A) → Text → A → A
  unfolding has_header
  first_value name [] text a = a
  first_value name ((value, b) ∷ table) text a =
      let rest = first_value name table text a in if has_header text name value then b else rest

  -- What the entries stand for whose values the header has, pushed on a list.
  unfoldable pub all_values : Text → List (Text × A) → Text → List A → List A
  unfolding has_header
  all_values name [] text known = known
  all_values name ((value, b) ∷ table) text known =
      all_values name table text (if has_header text name value then known ++ b ∷ [] else known)

abbrev pub method_names : List (Text × Method)
method_names =
    (codes "GET", Method.get)
    ∷ (codes "POST", Method.post)
    ∷ (codes "PUT", Method.put)
    ∷ (codes "CONNECT", Method.connect)
    ∷ (codes "DELETE", Method.delete)
    ∷ []

abbrev pub version_names : List (Text × Version)
version_names =
    (codes "HTTP/1.0", Version.http1_0)
    ∷ (codes "HTTP/1.1", Version.http1_1)
    ∷ (codes "HTTP/2.0", Version.http2_0)
    ∷ (codes "HTTP/3.0", Version.http3_0)
    ∷ []

-- `uriEndIndex -= 1`: below 0 it wraps to `npos`.
abbrev pub before : ℕ → Option ℕ
before zero = none
before (suc i) = some i

-- The URI between two indices, if both are known; `sizeof` counts the zero after a name.
unfoldable pub read_uri : Option (Method × ℕ × ℕ) → Option (Version × ℕ × ℕ) → Text → Text → Text
read_uri (some (_, i, size)) (some (_, suc stop, _)) text uri =
    let start = i + size + 1 in if leb stop start then [] else take (stop - start) (drop start text)
read_uri _ _ text uri = uri

abbrev pub found_or : {A : Type 0} → Option (A × ℕ × ℕ) → A → A
found_or none a = a
found_or (some (b, _, _)) a = b

abbrev pub line_between :
    Option (Method × ℕ × ℕ) → Option (Version × ℕ × ℕ) → Text → RequestLine → RequestLine
line_between method version text line = record {
  method = found_or method line.method;
  uri = read_uri method version text line.uri;
  version = found_or version line.version;
}

unfoldable pub read_request_line : Text → RequestLine → RequestLine
unfolding first_found find read_uri
read_request_line text line =
    line_between (first_found method_names text) (first_found version_names text) text line

abbrev pub content_types : List (Text × MimeType)
content_types =
    (codes "text/html", MimeType.text_html)
    ∷ (codes "application/json", MimeType.application_json)
    ∷ (codes "application/xml", MimeType.application_xml)
    ∷ (codes "text/css", MimeType.text_css)
    ∷ (codes "text/javascript", MimeType.text_javascript)
    ∷ (codes "image/png", MimeType.image_png)
    ∷ (codes "image/jpeg", MimeType.image_jpeg)
    ∷ (codes "image/svg+xml", MimeType.image_svg_xml)
    ∷ (codes "image/tiff", MimeType.image_tiff)
    ∷ []

abbrev pub connections : List (Text × Connection)
connections = (codes "keep-alive", Connection.keep_alive) ∷ (codes "close", Connection.close) ∷ []

-- All three push the same type.
abbrev pub accepted : List (Text × MimeType)
accepted =
    (codes "text/html", MimeType.text_html)
    ∷ (codes "application/json", MimeType.text_html)
    ∷ (codes "application/xml", MimeType.text_html)
    ∷ []

abbrev pub encodings : List (Text × Encoding)
encodings =
    (codes "gzip", Encoding.gzip)
    ∷ (codes "deflate", Encoding.deflate)
    ∷ (codes "br", Encoding.br)
    ∷ (codes "identity", Encoding.identity)
    ∷ []

unfoldable pub read_encodings : Text → List Encoding → List Encoding
unfolding all_values
read_encodings = all_values (codes "Content-Encoding:") encodings

abbrev pub occurs : Option Text → Text → Bool
occurs none text = Bool.false
occurs (some tag) text = contains tag text

abbrev pub is_asked_for : ReadTag → Text → Bool
is_asked_for (_, tag, other) text =
    has_header text (codes "Content-Language:") tag || occurs other text

unfoldable pub read_languages_of : List ReadTag → Text → List Language → List Language
unfolding has_header contains
read_languages_of [] text known = known
read_languages_of (t ∷ table) text known =
    read_languages_of table text (if is_asked_for t text then known ++ t.0 ∷ [] else known)

unfoldable pub read_languages : Text → List Language → List Language
unfolding read_languages_of
read_languages = read_languages_of read_tags

-- `none` is an exception of `substr` or of `std::stoul`.
unfoldable pub number_at : Text → ℕ → Option ℕ
unfolding stoul
number_at text start = if ltb (length text) start then none else stoul (drop start text)

-- The conversion to `Bytes`.
abbrev pub to_bytes : Option ℕ → Option ℕ
to_bytes none = none
to_bytes (some n) = some (n % u32)

unfoldable pub length_at : Text → ℕ → Option ℕ → Option ℕ
unfolding number_at
length_at text known none = some known
length_at text known (some i) = to_bytes (number_at text (i + length (codes "Content-Length:") + 1))

unfoldable pub read_content_length : Text → ℕ → Option ℕ
unfolding find length_at
read_content_length text known = length_at text known (find (codes "Content-Length:") text)

-- An exception leaves a request that is read in part.
pub data Outcome : Type 0 where
  throws : Request → Outcome
  returns : ErrorType → Request → Outcome

-- The request without its content length.
unfoldable pub read_request : Text → Request → Request
unfolding read_request_line first_value all_values read_encodings read_languages
read_request text r =
    let h = r.headers in
    record r {
      request_line = read_request_line text r.request_line;
      headers = record h {
        content_type = first_value (codes "Content-Type") content_types text h.content_type;
        connection = first_value (codes "Connection:") connections text h.connection;
        accept = all_values (codes "Accept:") accepted text h.accept;
        encoding = read_encodings text h.encoding;
        language = read_languages text h.language;
      };
    }

unfoldable pub to_http_request : Text → Request → Outcome
unfolding read_request read_content_length
to_http_request [] r = returns no_data r
to_http_request text r =
    let read = read_request text r in
    elim (read_content_length text read.headers.content_length) [
      | none ↦ throws read
      | some n ↦
          returns success (record read { headers = record (read.headers) { content_length = n } })
    ]
