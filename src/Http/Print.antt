-- ===== src/Http/Print.antt =====
-- Abstractions/Http/HttpTypes.hpp: messages, written for the network.
use abstraction_layer.Prelude.{
  ℕ, ◌-◌, Bool, false, List, [], ◌∷◌, ◌++◌, ◌==◌, ◌||◌, if◌then◌else◌, length,
}
use abstraction_layer.Prelude.Text.{Text, codes, take, to_string}
use abstraction_layer.Http.Languages.{Language, same_language}
use abstraction_layer.Http.Tags.{PrintedTag, printed_tags}
use abstraction_layer.Http.Types.{MimeType, Method, Version, Encoding, encoding_value, StatusCode}

unfoldable pub to_string_method : Method → Text
to_string_method Method.connect = codes "CONNECT "
to_string_method Method.delete = codes "DELETE "
to_string_method Method.get = codes "GET "
to_string_method Method.head = codes "HEAD "
to_string_method Method.options = codes "OPTIONS "
to_string_method Method.post = codes "POST "
to_string_method Method.put = codes "PUT "
to_string_method Method.trace = codes "TRACE "
to_string_method _ = []

unfoldable pub to_string_version : Version → Text
to_string_version Version.http1_0 = codes "HTTP/1.0"
to_string_version Version.http1_1 = codes "HTTP/1.1"
to_string_version Version.http2_0 = codes "HTTP/2.0"
to_string_version Version.http3_0 = codes "HTTP/3.0"
to_string_version _ = []

unfoldable pub to_string_status_code : StatusCode → Text
to_string_status_code StatusCode.continue = codes "100 Continue"
to_string_status_code StatusCode.switching_protocols = codes "101 Switching Protocols"
to_string_status_code StatusCode.processing = codes "102 Processing"
to_string_status_code StatusCode.early_hints = codes "103 Early Hints"
to_string_status_code StatusCode.ok = codes "200 OK"
to_string_status_code StatusCode.created = codes "201 Created"
to_string_status_code StatusCode.accepted = codes "202 Accepted"
to_string_status_code StatusCode.non_authoritative_information =
    codes "203 Non-Authoritative Information"
to_string_status_code StatusCode.no_content = codes "204 No Content"
to_string_status_code StatusCode.reset_content = codes "205 Reset Content"
to_string_status_code StatusCode.partial_content = codes "206 Partial Content"
to_string_status_code StatusCode.multi_status = codes "207 Multi-Status"
to_string_status_code StatusCode.already_reported = codes "208 Already Reported"
to_string_status_code StatusCode.im_used = codes "226 IM Used"
to_string_status_code StatusCode.multiple_choices = codes "300 Multiple Choices"
to_string_status_code StatusCode.moved_permanently = codes "301 Moved Permanently"
to_string_status_code StatusCode.found = codes "302 Found"
to_string_status_code StatusCode.see_other = codes "303 See Other"
to_string_status_code StatusCode.not_modified = codes "304 Not Modified"
to_string_status_code StatusCode.use_proxy = codes "305 Use Proxy"
to_string_status_code StatusCode.temporary_redirect = codes "307 Temporary Redirect"
to_string_status_code StatusCode.permanent_redirect = codes "308 Permanent Redirect"
to_string_status_code StatusCode.bad_request = codes "400 Bad Request"
to_string_status_code StatusCode.unauthorized = codes "401 Unauthorized"
to_string_status_code StatusCode.payment_required = codes "402 Payment Required"
to_string_status_code StatusCode.forbidden = codes "403 Forbidden"
to_string_status_code StatusCode.not_found = codes "404 Not Found"
to_string_status_code StatusCode.method_not_allowed = codes "405 Method Not Allowed"
to_string_status_code StatusCode.not_acceptable = codes "406 Not Acceptable"
to_string_status_code StatusCode.proxy_authentication_required =
    codes "407 Proxy Authentication Required"
to_string_status_code StatusCode.request_timeout = codes "408 Request Timeout"
to_string_status_code StatusCode.conflict = codes "409 Conflict"
to_string_status_code StatusCode.gone = codes "410 Gone"
to_string_status_code StatusCode.length_required = codes "411 Length Required"
to_string_status_code StatusCode.precondition_failed = codes "412 Precondition Failed"
to_string_status_code StatusCode.request_entity_too_large = codes "413 Request Entity Too Large"
to_string_status_code StatusCode.request_uri_too_long = codes "414 Request-URI Too Long"
to_string_status_code StatusCode.unsupported_media_type = codes "415 Unsupported Media Type"
to_string_status_code StatusCode.requested_range_not_satisfiable =
    codes "416 Requested Range Not Satisfiable"
to_string_status_code StatusCode.expectation_failed = codes "417 Expectation Failed"
to_string_status_code StatusCode.internal_server_error = codes "500 Internal Server Error"
to_string_status_code StatusCode.not_implemented = codes "501 Not Implemented"
to_string_status_code StatusCode.bad_gateway = codes "502 Bad Gateway"
to_string_status_code StatusCode.service_unavailable = codes "503 Service Unavailable"
to_string_status_code StatusCode.gateway_timeout = codes "504 Gateway Timeout"
to_string_status_code StatusCode.http_version_not_supported = codes "505 HTTP Version Not Supported"
to_string_status_code _ = []

unfoldable pub to_string_content_type : MimeType → Text
to_string_content_type MimeType.text_html = codes "Content-Type: text/html"
to_string_content_type MimeType.application_json = codes "Content-Type: application/json"
to_string_content_type MimeType.application_xml = codes "Content-Type: application/xml"
to_string_content_type MimeType.image_png = codes "Content-Type: image/png"
to_string_content_type MimeType.image_jpeg = codes "Content-Type: image/jpeg"
to_string_content_type MimeType.image_gif = codes "Content-Type: image/gif"
to_string_content_type MimeType.image_svg_xml = codes "Content-Type: image/svg+xml"
to_string_content_type MimeType.image_tiff = codes "Content-Type: image/tiff"
to_string_content_type MimeType.text_css = codes "Content-Type: text/css"
to_string_content_type MimeType.text_javascript = codes "Content-Type: text/javascript"
to_string_content_type _ = []

unfoldable pub to_string_http_server_type : MimeType → Text
to_string_http_server_type MimeType.text_html = codes "Content-Type: text/html"
to_string_http_server_type MimeType.application_json = codes "Content-Type: application/json"
to_string_http_server_type MimeType.application_xml = codes "Content-Type: application/xml"
to_string_http_server_type MimeType.application_xhtml_xml =
    codes "Content-Type: application/xhtml+xml"
to_string_http_server_type MimeType.application_octet_stream =
    codes "Content-Type: application/octet-stream"
to_string_http_server_type MimeType.application_form_urlencoded =
    codes "Content-Type: application/x-www-form-urlencoded"
to_string_http_server_type MimeType.image_gif = codes "Content-Type: image/gif"
to_string_http_server_type MimeType.image_jpeg = codes "Content-Type: image/jpeg"
to_string_http_server_type MimeType.image_png = codes "Content-Type: image/png"
to_string_http_server_type MimeType.image_tiff = codes "Content-Type: image/tiff"
to_string_http_server_type MimeType.image_svg_xml = codes "Content-Type: image/svg+xml"
to_string_http_server_type _ = []

-- The text without its last two characters.
abbrev pub drop_last_two : Text → Text
drop_last_two s = take (length s - 2) s

-- Whether `std::find` finds an encoding, by the numbers of the enumerators.
abbrev pub has_encoding : Encoding → List Encoding → Bool
has_encoding e [] = false
has_encoding e (x ∷ xs) = (encoding_value x == encoding_value e) || has_encoding e xs

abbrev pub separator : Text
separator = codes ", "

abbrev pub printed_encoding : Encoding → Text → List Encoding → Text
printed_encoding e tag es = if has_encoding e es then tag ++ separator else []

abbrev pub printed_encodings : List Encoding → Text
printed_encodings es =
    printed_encoding Encoding.gzip (codes "gzip") es
    ++ printed_encoding Encoding.deflate (codes "deflate") es
    ++ printed_encoding Encoding.br (codes "br") es
    ++ printed_encoding Encoding.identity (codes "identity") es

unfoldable pub to_string_encoding : List Encoding → Text
to_string_encoding [] = []
to_string_encoding (e ∷ es) =
    drop_last_two (codes "Content-Encoding: " ++ printed_encodings (e ∷ es))

unfoldable pub has_language : Language → List Language → Bool
has_language l [] = false
has_language l (x ∷ xs) = same_language x l || has_language l xs

-- The tags of the languages that occur, in the order of the table.
unfoldable pub print_tags : List PrintedTag → List Language → Text
unfolding has_language
print_tags [] ls = []
print_tags (t ∷ table) ls =
    (if has_language t.0 ls then t.1 ++ separator else []) ++ print_tags table ls

unfoldable pub to_string_content_language : List Language → Text
unfolding print_tags
to_string_content_language [] = []
to_string_content_language (l ∷ ls) =
    drop_last_two (codes "Content-Language: " ++ print_tags printed_tags (l ∷ ls))

unfoldable pub to_string_content_length : ℕ → Text
unfolding to_string
to_string_content_length n = codes "Content-Length: " ++ to_string n
