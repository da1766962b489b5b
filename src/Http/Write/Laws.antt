-- ===== src/Http/Write/Laws.antt =====
-- Abstractions/Http/HttpTypes.hpp: the text of a request and of a response, written down at once.
use abstraction_layer.Prelude.{
  ℕ, ◌≤◌, ◌≡◌, refl, inl, inr, true, not, List, [], ◌∷◌, ◌++◌, append_assoc, append-nil,
  if◌then◌else◌, length, length-append, arith, Bool-cases, ==_self,
}
use abstraction_layer.Prelude.Text.{Text, codes, line_end}
use abstraction_layer.Prelude.Text.Laws.{is_empty, length-ne}
use abstraction_layer.Error.{ErrorType, success, invalid_parameter, no_data}
use abstraction_layer.Http.Types.{MimeType, Request, Response, reset_response}
use abstraction_layer.Http.Print.{
  to_string_method, to_string_version, to_string_status_code, to_string_content_type,
  to_string_encoding, to_string_content_language, to_string_content_length,
}
use abstraction_layer.Http.Write.{
  has_changed, end_line, write_accept, write_custom, write_headers, is_post, from_http_request,
  write_response, to_http_response, clear_response_header,
}

-- A line, if there is something to say.
abbrev pub line : Text → Text
line [] = []
line (c ∷ s) = (c ∷ s) ++ line_end

-- A list of texts, one after the other.
abbrev pub lines : List Text → Text
lines [] = []
lines (s ∷ ss) = line s ++ lines ss

abbrev pub accept_values : List MimeType → Text
accept_values [] = []
accept_values (t ∷ ts) =
    (codes "Accept: " ++ to_string_content_type t ++ codes ",") ++ accept_values ts

abbrev pub request_lines : Request → Text
request_lines r =
    line (codes "Host: " ++ r.headers.host)
    ++ line (codes "User-Agent: " ++ r.headers.user_agent)
    ++ line (accept_values r.headers.accept)
    ++ lines r.custom_headers
    ++ codes "Connection: close"
    ++ line_end
    ++ line_end
    ++ (if is_post r.request_line.method then r.message_body else [])

abbrev pub response_lines : Response → Text
response_lines r =
    lines (
      to_string_status_code r.status_line.status_code
      ∷ to_string_encoding r.representation_headers.content_encoding
      ∷ to_string_content_type r.representation_headers.content_type
      ∷ to_string_content_length r.representation_headers.content_length
      ∷ to_string_content_language r.representation_headers.content_language
      ∷ [])
    ++ codes "Connection: close"
    ++ line_end
    ++ line_end
    ++ r.message_body

-- The texts that an error leaves differ only where the appended text is empty.
same_branches :
    (method uri version : Text) (full : ErrorType × Text)
    → (if not (not (is_empty method))
        then (invalid_parameter, method)
        else if not (not (is_empty uri))
        then (invalid_parameter, method ++ uri)
        else if not (not (is_empty version))
        then (invalid_parameter, (method ++ uri ++ codes " ") ++ version)
        else full)
      ≡ (if is_empty method
          then (invalid_parameter, [])
          else if is_empty uri
          then (invalid_parameter, method)
          else if is_empty version
          then (invalid_parameter, method ++ uri ++ codes " ")
          else full)
same_branches [] uri version full = refl
same_branches (c ∷ m) [] version full = rw append-nil refl
same_branches (c ∷ m) (u ∷ us) [] full = rw append-nil refl
same_branches (c ∷ m) (u ∷ us) (v ∷ vs) full = refl

has_changed-append : (d t : Text) → has_changed d (d ++ t) ≡ not (is_empty t)
unfolding has_changed
has_changed-append d [] = rw (append-nil, ==_self (length d)) refl
has_changed-append d (c ∷ t) = rw (length-ne c d t) refl

end_line-append : (d t : Text) → end_line d (d ++ t) ≡ d ++ line t
unfolding end_line
end_line-append d [] = rw (has_changed-append d []) refl
end_line-append d (c ∷ t) = rw (has_changed-append d (c ∷ t)) (append_assoc d (c ∷ t) line_end)

has_changed_longer :
    (before text : Text) (c : ℕ) (s : Text)
    → length before ≤ length text
    → has_changed before (text ++ c ∷ s) ≡ true
unfolding has_changed
has_changed_longer before text c s h = ground (arith, length-append text (c ∷ s))

write_accept-values :
    (before : Text) (ts : List MimeType) (text : Text)
    → length before ≤ length text
    → write_accept before ts text ≡ text ++ accept_values ts
unfolding write_accept
write_accept-values before [] text h = rw append-nil refl
write_accept-values before (t ∷ ts) text h =
    let next = text ++ (codes "Accept: " ++ to_string_content_type t) in
    rw
      (
        has_changed_longer before text 65 _ h,
        write_accept-values before ts (next ++ codes ",") (
            omega (
              arith,
              length-append text (codes "Accept: " ++ to_string_content_type t),
              length-append next (codes ","),
            )),
      )
      (simp append_assoc)

write_custom-lines :
    (before : Text) (hs : List Text) (text : Text)
    → length before ≤ length text
    → write_custom before hs text ≡ text ++ lines hs
unfolding write_custom
write_custom-lines before [] text h = rw append-nil refl
write_custom-lines before ([] ∷ hs) text h = write_custom-lines before hs text h
write_custom-lines before ((c ∷ s) ∷ hs) text h =
    let next = (text ++ c ∷ s) ++ line_end in
    ground (
      arith,
      has_changed_longer before text c s h,
      write_custom-lines next hs next (omega arith),
      append_assoc text (c ∷ s) line_end,
      append_assoc text ((c ∷ s) ++ line_end) (lines hs),
      append_assoc (c ∷ s) line_end (lines hs),
    )

write_headers-request_lines : (r : Request) (d : Text) → write_headers r d ≡ d ++ request_lines r
unfolding write_headers
write_headers-request_lines r d =
    let host = d ++ line (codes "Host: " ++ r.headers.host) in
    let agent = host ++ line (codes "User-Agent: " ++ r.headers.user_agent) in
    let accept = agent ++ line (accept_values r.headers.accept) in
    rw
      (
        end_line-append d (codes "Host: " ++ r.headers.host),
        end_line-append host (codes "User-Agent: " ++ r.headers.user_agent),
        write_accept-values agent r.headers.accept agent (omega arith),
        end_line-append agent (accept_values r.headers.accept),
        write_custom-lines agent r.custom_headers accept
            (omega (arith, length-append agent (line (accept_values r.headers.accept)))),
      )
      (elim (Bool-cases (is_post r.request_line.method)) [
        | inl e ↦ rw e (simp append_assoc)
        | inr e ↦ rw e (simp (append_assoc, append-nil))
      ])

-- `FromHttpRequest` needs a method, a URI and a version that can be written, tested in this order;
-- then it writes the request line, a line for the host and the agent even where they are empty, the
-- accepted types, the custom headers, and the body of a `POST`.
pub from_http_request_cases :
    (r : Request)
    → from_http_request r ≡ (
        let method = to_string_method r.request_line.method in
        let start = method ++ r.request_line.uri ++ codes " " in
        let version = to_string_version r.request_line.version in
        if is_empty method
        then (invalid_parameter, [])
        else if is_empty r.request_line.uri
        then (invalid_parameter, method)
        else if is_empty version
        then (invalid_parameter, start)
        else (success, start ++ version ++ line_end ++ request_lines r))
unfolding from_http_request
from_http_request_cases r =
    let method = to_string_method r.request_line.method in
    let uri = method ++ r.request_line.uri in
    rw
      (
        has_changed-append [] method,
        has_changed-append method r.request_line.uri,
        has_changed-append (uri ++ codes " ") (to_string_version r.request_line.version),
        write_headers-request_lines,
      )
      (same_branches method r.request_line.uri (to_string_version r.request_line.version) (
        success,
        method
            ++ r.request_line.uri
            ++ codes " "
            ++ to_string_version r.request_line.version
            ++ line_end
            ++ request_lines r,
      ))

write_response-lines : (r : Response) (d : Text) → write_response r d ≡ d ++ response_lines r
unfolding write_response
write_response-lines r d =
    let headers = r.representation_headers in
    let status = to_string_status_code r.status_line.status_code in
    let encoding = to_string_encoding headers.content_encoding in
    let type = to_string_content_type headers.content_type in
    let size = to_string_content_length headers.content_length in
    let language = to_string_content_language headers.content_language in
    let one = d ++ line status in
    let two = one ++ line encoding in
    let three = two ++ line type in
    rw
      (
        end_line-append d status,
        end_line-append one encoding,
        end_line-append two type,
        end_line-append three size,
        end_line-append (three ++ line size) language,
      )
      (simp (append_assoc, append-nil))

or_body :
    (version body : Text) (full : ErrorType × Text)
    → (if not (is_empty version) then full else (no_data, version ++ body))
      ≡ (if is_empty version then (no_data, body) else full)
or_body [] body full = refl
or_body (c ∷ version) body full = refl

-- `ToHttpResponse` writes the status line and the headers, if the version is known; else only the
-- body, with `NoData`.
pub to_http_response_cases :
    (r : Response)
    → to_http_response r ≡ (
        let version = to_string_version r.status_line.version in
        if is_empty version
        then (no_data, r.message_body)
        else (success, version ++ codes " " ++ response_lines r))
unfolding to_http_response
to_http_response_cases r =
    let version = to_string_version r.status_line.version in
    rw (has_changed-append [] version, write_response-lines)
      (or_body version r.message_body (success, version ++ codes " " ++ response_lines r))

-- After `ClearResponseHeader` a response is as after `reset`, but keeps its body, and the body is
-- all that `ToHttpResponse` writes.
pub to_http_response-clear :
    (r : Response)
    → (clear_response_header r ≡ (success, record reset_response { message_body = r.message_body }))
      × (to_http_response (clear_response_header r).1 ≡ (no_data, r.message_body))
unfolding clear_response_header to_http_response has_changed
to_http_response-clear r = (refl, refl)
