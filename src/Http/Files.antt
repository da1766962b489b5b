-- ===== src/Http/Files.antt =====
-- Abstractions/Http/HttpTypes.hpp: the content type that a file's name stands for, and the parts of
-- a URL.
pub mod Extensions
pub mod Urls
use abstraction_layer.Prelude.{
  ℕ, ◌+◌, ◌%◌, ◌^◌, Option, none, some, ◌>>=◌, List, [], ◌∷◌, ◌==◌, if◌then◌else◌,
}
use abstraction_layer.Prelude.Text.{Text, codes, is_prefix, find, rfind, substr}
use abstraction_layer.Error.{ErrorType, success, invalid_parameter, not_supported}
use abstraction_layer.Http.Types.{MimeType, Url}

abbrev pub extensions : List (Text × MimeType)
extensions =
    (codes ".html", MimeType.text_html)
    ∷ (codes ".json", MimeType.application_json)
    ∷ (codes ".css", MimeType.text_css)
    ∷ (codes ".js", MimeType.text_javascript)
    ∷ (codes ".png", MimeType.image_png)
    ∷ (codes ".jpg", MimeType.image_jpeg)
    ∷ (codes ".gif", MimeType.image_gif)
    ∷ (codes ".svg", MimeType.image_svg_xml)
    ∷ []

-- The first extension that the text begins with.
unfoldable pub type_of : List (Text × MimeType) → Text → Option MimeType
unfolding is_prefix
type_of [] text = none
type_of ((extension, t) ∷ table) text =
    let rest = type_of table text in if is_prefix extension text then some t else rest

-- The loop from the last character back: the first dot, from the end, at which an extension begins.
unfoldable pub last_type : Text → Option MimeType
unfolding type_of
last_type [] = none
last_type (c ∷ text) = elim (last_type text) [
  | some t ↦ some t
  | none ↦ if c == b'.' then type_of extensions (c ∷ text) else none
]

abbrev pub or_not_supported : Option MimeType → ErrorType × MimeType
or_not_supported (some t) = (success, t)
or_not_supported none = (not_supported, MimeType.unknown)

unfoldable pub determine_content_type : Text → ErrorType × MimeType
unfolding last_type
determine_content_type [] = (invalid_parameter, MimeType.unknown)
determine_content_type (c ∷ text) = or_not_supported (last_type (c ∷ text))

-- `endOfScheme + sizeof("//")` on `size_t`; without a colon `npos` is the largest number.
abbrev pub after_scheme : Option ℕ → ℕ
after_scheme none = (2 ^ 64 + 2) % 2 ^ 64
after_scheme (some i) = i + 3

-- `none` is the exception of a `substr` that starts past the end, as without a slash.
abbrev pub parts_at : Text → Text → Option ℕ → Option Url
parts_at scheme rest none = none
parts_at scheme rest (some i) = do
  domain_name ← substr rest 0 (some i)
  path ← substr rest i none
  some (record { scheme = scheme; domain_name = domain_name; path = path })

unfoldable pub disect_url : Text → Option Url
disect_url url = do
  scheme ← substr url 0 (find (b':' ∷ []) url)
  rest ← substr url (after_scheme (find (b':' ∷ []) url)) none
  parts_at scheme rest (rfind b'/' rest)
