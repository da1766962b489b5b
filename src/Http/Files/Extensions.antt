-- ===== src/Http/Files/Extensions.antt =====
-- Abstractions/Http/HttpTypes.hpp: the content type of a file with a known extension.
use abstraction_layer.Prelude.{◌≡◌, refl, ap, some, List, [], ◌∷◌, ◌++◌}
use abstraction_layer.Prelude.Text.{Text}
use abstraction_layer.Prelude.Text.Laws.{All}
use abstraction_layer.Error.{success}
use abstraction_layer.Http.Types.{MimeType}
use abstraction_layer.Http.Files.{extensions, last_type, or_not_supported, determine_content_type}

last_type-append :
    (stem extension : Text) (t : MimeType)
    → last_type extension ≡ some t
    → last_type (stem ++ extension) ≡ some t
unfolding last_type
last_type-append [] extension t h = h
last_type-append (c ∷ stem) extension t h = rw (last_type-append stem extension t h) refl

determine-last_type :
    (name : Text) (t : MimeType)
    → last_type name ≡ some t
    → determine_content_type name ≡ (success, t)
unfolding determine_content_type
determine-last_type [] t h = cc
determine-last_type (c ∷ name) t h = ap or_not_supported h

-- The type of every entry of a table of extensions whose own type is the one that the loop finds.
types_found :
    (stem : Text) (table : List (Text × MimeType))
    → All (λ entry. last_type entry.0 ≡ some entry.1) table
    → All (λ entry. determine_content_type (stem ++ entry.0) ≡ (success, entry.1)) table
types_found stem [] h = tt
types_found stem (entry ∷ table) (h, hs) = (
  determine-last_type (stem ++ entry.0) entry.1 (last_type-append stem entry.0 entry.1 h),
  types_found stem table hs,
)

-- Behind any stem, dots included, each of the eight extensions gives its own type.
pub determine_content_type-extension :
    (stem : Text)
    → All (λ entry. determine_content_type (stem ++ entry.0) ≡ (success, entry.1)) extensions
unfolding last_type
determine_content_type-extension stem =
    types_found stem extensions (refl, (refl, (refl, (refl, (refl, (refl, (refl, (refl, tt))))))))
