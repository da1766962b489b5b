-- ===== src/Http/Examples.antt =====
-- Abstractions/Http/HttpTypes.hpp: tests, and the theorems on messages.
use abstraction_layer.Prelude.{◌≡◌, refl, true, none, some, [], ◌∷◌, ◌++◌, arith}
use abstraction_layer.Prelude.Text.{codes, line_end, find, find_from, rfind, substr, contains}
use abstraction_layer.Prelude.Text.Laws.{All}
use abstraction_layer.Error.{success, no_data}
use abstraction_layer.Http.Languages.{
  afrikaans, gujarati, telugu, korean, spanish_spain, same_language,
}
use abstraction_layer.Http.Types.{
  Method, Version, Encoding, MimeType, StatusCode, Request, Response, reset_request, reset_response,
}
use abstraction_layer.Http.Print.{
  to_string_method, to_string_version, to_string_encoding, to_string_content_language,
  to_string_content_length, has_language,
}
use abstraction_layer.Http.Write.{from_http_request, to_http_response, clear_response_header}
use abstraction_layer.Http.Write.Laws.{
  request_lines, response_lines, from_http_request_cases, to_http_response_cases,
  to_http_response-clear,
}
use abstraction_layer.Http.Read.{
  find_header_value, read_encodings, read_languages, read_content_length, read_request_line,
}
use abstraction_layer.Http.Read.ContentLength.{read-to_string_content_length}
use abstraction_layer.Http.Read.Lines.{read_request_line-write}
use abstraction_layer.Http.Read.Encodings.{read-to_string_encoding}
use abstraction_layer.Http.Read.Spoken.{find_header_value-name, read_languages-header}
use abstraction_layer.Http.Read.Paired.{read_languages-written}
use abstraction_layer.Http.Files.{extensions, determine_content_type, disect_url}
use abstraction_layer.Http.Files.Extensions.{determine_content_type-extension}
use abstraction_layer.Http.Files.Urls.{disect_url-join, disect_url_throws}

-- The value stands in the line below the header.
wrong_line :
    find_header_value
      (codes "Host: example" ++ line_end ++ codes "Connection: x" ++ line_end ++ codes "close")
      (codes "Connection:")
      (codes "close")
    ≡ success
unfolding find_header_value
wrong_line = refl

-- "gu" and "te" are part of "Content-Language".
one_language :
    read_languages (codes "Content-Language: af" ++ line_end) []
    ≡ afrikaans ∷ gujarati ∷ telugu ∷ []
unfolding read_languages same_language
one_language = refl

length_42 : read_content_length (to_string_content_length 42 ++ line_end) 0 ≡ some 42
unfolding read_content_length to_string_content_length
length_42 = refl

encodings_2 :
    read_encodings (to_string_encoding (Encoding.br ∷ Encoding.gzip ∷ []) ++ line_end) []
    ≡ Encoding.gzip ∷ Encoding.br ∷ []
unfolding read_encodings to_string_encoding
encodings_2 = refl

page : determine_content_type (codes "a.json.html.bak") ≡ (success, MimeType.text_html)
unfolding determine_content_type
page = refl

url_parts :
    disect_url (codes "http://a.com/b/c")
    ≡ some (record { scheme = codes "http"; domain_name = codes "a.com/b"; path = codes "/c" })
unfolding disect_url find rfind substr
url_parts = refl

get_line :
    read_request_line (codes "GET /index HTTP/1.1" ++ line_end) (reset_request.request_line)
    ≡ record { method = Method.get; uri = codes "/index"; version = Version.http1_1 }
unfolding read_request_line
get_line = refl

abbrev some_request : Request
some_request = record reset_request {
  request_line = record { method = Method.post; uri = codes "/data"; version = Version.http1_1 };
  headers = record (reset_request.headers) {
    host = codes "a.com";
    accept = MimeType.text_html ∷ [];
  };
  custom_headers = codes "X-Id: 1" ∷ [];
  message_body = codes "x=1";
}

abbrev some_response : Response
some_response = record reset_response {
  status_line = record { version = Version.http1_1; status_code = StatusCode.ok };
  message_body = codes "hello";
}

from_http_request_cases_example :
    from_http_request some_request
    ≡ (success, codes "POST /data HTTP/1.1" ++ line_end ++ request_lines some_request)
unfolding to_string_method to_string_version
from_http_request_cases_example = from_http_request_cases some_request

to_http_response_cases_test :
    to_http_response some_response ≡ (success, codes "HTTP/1.1 " ++ response_lines some_response)
unfolding to_string_version
to_http_response_cases_test = to_http_response_cases some_response

to_http_response-clear_test :
    (clear_response_header some_response
      ≡ (success, record reset_response { message_body = codes "hello" }))
    × (to_http_response (clear_response_header some_response).1 ≡ (no_data, codes "hello"))
unfolding clear_response_header
to_http_response-clear_test = to_http_response-clear some_response

read-to_string_content_length_test :
    read_content_length (line_end ++ (to_string_content_length 1024 ++ line_end)) 0 ≡ some 1024
read-to_string_content_length_test =
    read-to_string_content_length line_end line_end 1024 0 (omega arith) (omega arith) refl

read_request_line-write_example :
    read_request_line
      (codes "POST " ++ (codes "/data" ++ (codes " " ++ (codes "HTTP/1.1" ++ line_end))))
      (reset_request.request_line)
    ≡ record { method = Method.post; uri = codes "/data"; version = Version.http1_1 }
unfolding find to_string_method to_string_version
read_request_line-write_example =
    read_request_line-write Method.post Version.http1_1 (codes "/data") line_end
      (reset_request.request_line) refl refl (omega arith)
      (refl, (refl, (refl, (refl, (refl, tt))))) (refl, (refl, (refl, (refl, tt))))

read-to_string_encoding_test :
    read_encodings (to_string_encoding (Encoding.br ∷ Encoding.gzip ∷ []) ++ line_end) []
    ≡ Encoding.gzip ∷ Encoding.br ∷ []
read-to_string_encoding_test = read-to_string_encoding (Encoding.br ∷ Encoding.gzip ∷ [])

find_header_value-name_test :
    find_header_value
      (codes "Content-Language: af" ++ line_end)
      (codes "Content-Language:")
      (codes "gu")
    ≡ success
unfolding contains find_from
find_header_value-name_test =
    find_header_value-name (codes "Content-Language: af" ++ line_end) (codes "Content-Language:")
      (codes "gu") 0 20 (omega arith) refl refl refl

read_languages-header_test :
    (has_language gujarati (read_languages (codes "Content-Language: af" ++ line_end) []) ≡ true)
    × (has_language telugu (read_languages (codes "Content-Language: af" ++ line_end) []) ≡ true)
unfolding find_from
read_languages-header_test =
    read_languages-header (codes "Content-Language: af" ++ line_end) [] 0 20 refl refl

read_languages-written_example :
    has_language spanish_spain
      (read_languages (to_string_content_language (korean ∷ spanish_spain ∷ []) ++ line_end) [])
    ≡ true
unfolding has_language same_language
read_languages-written_example =
    read_languages-written spanish_spain (korean ∷ spanish_spain ∷ []) refl refl

determine_content_type-extension_test :
    All
      (λ entry. determine_content_type (codes "a.css.b" ++ entry.0) ≡ (success, entry.1))
      extensions
determine_content_type-extension_test = determine_content_type-extension (codes "a.css.b")

disect_url-join_test :
    disect_url (codes "http://a.com/b/c")
    ≡ some (record { scheme = codes "http"; domain_name = codes "a.com/b"; path = codes "/c" })
disect_url-join_test =
    disect_url-join (codes "http") (codes "a.com/b") (codes "c") (omega arith) (omega arith)

disect_url_throws_test : disect_url (codes "http://a.com") ≡ none
disect_url_throws_test =
    disect_url_throws (codes "http") (codes "a.com") (omega arith) (omega arith)
