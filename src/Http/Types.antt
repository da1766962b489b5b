-- ===== src/Http/Types.antt =====
-- Abstractions/Http/HttpTypes.hpp: requests, responses and what they are made of. The arrays of
-- characters of `ResponseHeaders` are lists of the bytes.
use abstraction_layer.Prelude.{ℕ, List, [], replicate}
use abstraction_layer.Prelude.Text.{Text}
use abstraction_layer.Http.Languages.{Language}

-- `Type`.
pub data MimeType : Type 0 where
  unknown text_html text_css text_javascript application_json : MimeType
  application_xml application_xhtml_xml application_octet_stream application_form_urlencoded
        image_gif :
      MimeType
  image_jpeg image_png image_tiff image_svg_xml audio_basic : MimeType
  audio_mpeg audio_vorbis audio_vnd_wave audio_webm video_mpeg : MimeType
  video_mp4 video_webm : MimeType

pub data Method : Type 0 where
  unknown get post put delete head connect options trace : Method

pub data Version : Type 0 where
  unknown http1_0 http1_1 http2_0 http3_0 : Version

pub data Connection : Type 0 where
  unknown keep_alive close : Connection

pub data Encoding : Type 0 where
  unknown gzip deflate br identity : Encoding

-- The number of an enumerator.
abbrev pub encoding_value : Encoding → ℕ
encoding_value Encoding.unknown = 0
encoding_value Encoding.gzip = 1
encoding_value Encoding.deflate = 2
encoding_value Encoding.br = 3
encoding_value Encoding.identity = 4

pub data StatusCode : Type 0 where
  unknown continue switching_protocols processing : StatusCode
  early_hints ok created accepted : StatusCode
  non_authoritative_information no_content reset_content partial_content : StatusCode
  multi_status already_reported im_used multiple_choices : StatusCode
  moved_permanently found see_other not_modified : StatusCode
  use_proxy temporary_redirect permanent_redirect bad_request : StatusCode
  unauthorized payment_required forbidden not_found : StatusCode
  method_not_allowed not_acceptable proxy_authentication_required request_timeout : StatusCode
  conflict gone length_required precondition_failed : StatusCode
  request_entity_too_large request_uri_too_long unsupported_media_type
        requested_range_not_satisfiable :
      StatusCode
  expectation_failed internal_server_error not_implemented bad_gateway : StatusCode
  service_unavailable gateway_timeout http_version_not_supported : StatusCode

pub record Headers : Type 0 where
  pub user_agent : Text
  pub host : Text
  pub referer : Text
  pub language : List Language
  pub accept : List MimeType
  pub encoding : List Encoding
  pub content_type : MimeType
  pub connection : Connection
  pub content_length : ℕ

abbrev pub reset_headers : Headers
reset_headers = record {
  user_agent = [];
  host = [];
  referer = [];
  language = [];
  accept = [];
  encoding = [];
  content_type = MimeType.unknown;
  connection = Connection.unknown;
  content_length = 0;
}

-- The ten custom headers.
abbrev pub CustomHeaders : Type 0
CustomHeaders = List Text

abbrev pub reset_custom_headers : CustomHeaders
reset_custom_headers = replicate 10 []

pub record RequestLine : Type 0 where
  pub method : Method
  pub uri : Text
  pub version : Version

abbrev pub reset_request_line : RequestLine
reset_request_line = record { method = Method.unknown; uri = []; version = Version.unknown }

pub record Request : Type 0 where
  pub request_line : RequestLine
  pub headers : Headers
  pub custom_headers : CustomHeaders
  pub message_body : Text

abbrev pub reset_request : Request
reset_request = record {
  request_line = reset_request_line;
  headers = reset_headers;
  custom_headers = reset_custom_headers;
  message_body = [];
}

pub record StatusLine : Type 0 where
  pub version : Version
  pub status_code : StatusCode

abbrev pub reset_status_line : StatusLine
reset_status_line = record { version = Version.unknown; status_code = StatusCode.unknown }

pub record ResponseHeaders : Type 0 where
  pub server : Text
  pub date : Text

abbrev pub reset_response_headers : ResponseHeaders
reset_response_headers = record { server = replicate 64 0; date = replicate 32 0 }

pub record RepresentationHeaders : Type 0 where
  pub content_type : MimeType
  pub content_encoding : List Encoding
  pub content_length : ℕ
  pub content_language : List Language

abbrev pub reset_representation_headers : RepresentationHeaders
reset_representation_headers = record {
  content_type = MimeType.unknown;
  content_encoding = [];
  content_length = 0;
  content_language = [];
}

pub record Response : Type 0 where
  pub status_line : StatusLine
  pub response_headers : ResponseHeaders
  pub representation_headers : RepresentationHeaders
  pub message_body : Text

abbrev pub reset_response : Response
reset_response = record {
  status_line = reset_status_line;
  response_headers = reset_response_headers;
  representation_headers = reset_representation_headers;
  message_body = [];
}

pub record Url : Type 0 where
  pub scheme : Text
  pub domain_name : Text
  pub path : Text
