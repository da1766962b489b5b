-- ===== src/Http/Write.antt =====
-- Abstractions/Http/HttpTypes.hpp: whole requests and responses, written for the network. Sizes are
-- compared before and after a text is appended, as the code does.
pub mod Laws
use abstraction_layer.Prelude.{
  Bool, not, List, [], ◌∷◌, ◌++◌, ◌==◌, if◌then◌else◌, length, ltb, replicate,
}
use abstraction_layer.Prelude.Text.{Text, codes, line_end}
use abstraction_layer.Error.{ErrorType, success, invalid_parameter, no_data}
use abstraction_layer.Http.Types.{MimeType, Method, Version, StatusCode, Request, Response}
use abstraction_layer.Http.Print.{
  to_string_method, to_string_version, to_string_status_code, to_string_content_type,
  to_string_encoding, to_string_content_language, to_string_content_length,
}

-- Whether the size of the second text is another one.
unfoldable pub has_changed : Text → Text → Bool
has_changed before after = not (length before == length after)

-- The second text, with a line end if its size is not that of the first.
unfoldable pub end_line : Text → Text → Text
unfolding has_changed
end_line before after = if has_changed before after then after ++ line_end else after

-- The loop over `accept`; the first text is the one before the loop.
unfoldable pub write_accept : Text → List MimeType → Text → Text
unfolding has_changed
write_accept before [] text = text
write_accept before (t ∷ ts) text =
    let next = text ++ (codes "Accept: " ++ to_string_content_type t) in
    write_accept before ts (if has_changed before next then next ++ codes "," else next)

-- The loop over the custom headers; `before` has the size that was noted last.
unfoldable pub write_custom : Text → List Text → Text → Text
unfolding end_line
write_custom before [] text = text
write_custom before (h ∷ hs) text =
    let same = write_custom before hs text in
    let next = end_line before (text ++ h) in
    let more = write_custom next hs next in if ltb 0 (length h) then more else same

abbrev pub is_post : Method → Bool
is_post Method.post = Bool.true
is_post _ = Bool.false

-- What follows the request line.
unfoldable pub write_headers : Request → Text → Text
unfolding write_accept write_custom
write_headers r line =
    let host = end_line line (line ++ (codes "Host: " ++ r.headers.host)) in
    let agent = end_line host (host ++ (codes "User-Agent: " ++ r.headers.user_agent)) in
    let accept = end_line agent (write_accept agent r.headers.accept agent) in
    let custom = write_custom agent r.custom_headers accept in
    let all = custom ++ codes "Connection: close" ++ line_end ++ line_end in
    if is_post r.request_line.method then all ++ r.message_body else all

-- The error, and what `data` is then.
unfoldable pub from_http_request : Request → ErrorType × Text
unfolding write_headers to_string_method to_string_version
from_http_request r =
    let method = to_string_method r.request_line.method in
    let uri = method ++ r.request_line.uri in
    let version = (uri ++ codes " ") ++ to_string_version r.request_line.version in
    if not (has_changed [] method)
    then (invalid_parameter, method)
    else if not (has_changed method uri)
    then (invalid_parameter, uri)
    else if not (has_changed (uri ++ codes " ") version)
    then (invalid_parameter, version)
    else (success, write_headers r (version ++ line_end))

-- What follows the version.
unfoldable pub write_response : Response → Text → Text
unfolding to_string_status_code to_string_encoding to_string_content_type to_string_content_length
    to_string_content_language
write_response r start =
    let headers = r.representation_headers in
    let status = end_line start (start ++ to_string_status_code r.status_line.status_code) in
    let encoding = end_line status (status ++ to_string_encoding headers.content_encoding) in
    let type = end_line encoding (encoding ++ to_string_content_type headers.content_type) in
    let size = end_line type (type ++ to_string_content_length headers.content_length) in
    let language = end_line size (size ++ to_string_content_language headers.content_language) in
    language ++ codes "Connection: close" ++ line_end ++ line_end ++ r.message_body

-- The error, and what `buffer` is then.
unfoldable pub to_http_response : Response → ErrorType × Text
unfolding write_response to_string_version
to_http_response r =
    let version = to_string_version r.status_line.version in
    if has_changed [] version
    then (success, write_response r (version ++ codes " "))
    else (no_data, version ++ r.message_body)

-- The error, and what `response` is then.
unfoldable pub clear_response_header : Response → ErrorType × Response
clear_response_header r = (
  success,
  record {
    status_line = record { version = Version.unknown; status_code = StatusCode.unknown };
    response_headers = record { server = replicate 64 0; date = replicate 32 0 };
    representation_headers = record {
      content_type = MimeType.unknown;
      content_encoding = [];
      content_length = 0;
      content_language = [];
    };
    message_body = r.message_body;
  },
)
