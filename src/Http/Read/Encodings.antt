-- ===== src/Http/Read/Encodings.antt =====
-- Abstractions/Http/HttpTypes.hpp: the header of the encodings, written and read.
use abstraction_layer.Prelude.{◌≡◌, refl, Bool, true, false, List, [], ◌∷◌, ◌++◌, if◌then◌else◌}
use abstraction_layer.Prelude.Text.{Text, codes, line_end}
use abstraction_layer.Http.Types.{Encoding}
use abstraction_layer.Http.Print.{to_string_encoding, has_encoding, drop_last_two, separator}
use abstraction_layer.Http.Read.{read_encodings}

-- One encoding, if the flag is set.
abbrev chosen : Bool → Encoding → List Encoding
chosen b e = if b then e ∷ [] else []

-- The known encodings of a list, each once, in the order of the enumerators.
abbrev pub known_encodings : List Encoding → List Encoding
known_encodings es =
    chosen (has_encoding Encoding.gzip es) Encoding.gzip
    ++ chosen (has_encoding Encoding.deflate es) Encoding.deflate
    ++ chosen (has_encoding Encoding.br es) Encoding.br
    ++ chosen (has_encoding Encoding.identity es) Encoding.identity

flag_text : Bool → Text → Text
flag_text b tag = if b then tag ++ separator else []

-- What is read is a matter of the four flags, so all sixteen cases are run.
read_flags :
    (g d b i : Bool)
    → read_encodings
        (drop_last_two (
            codes "Content-Encoding: "
            ++ (flag_text g (codes "gzip")
                ++ flag_text d (codes "deflate")
                ++ flag_text b (codes "br")
                ++ flag_text i (codes "identity")))
          ++ line_end)
        []
      ≡ chosen g Encoding.gzip
        ++ chosen d Encoding.deflate
        ++ chosen b Encoding.br
        ++ chosen i Encoding.identity
unfolding read_encodings flag_text
read_flags true true true true = refl
read_flags true true true false = refl
read_flags true true false true = refl
read_flags true true false false = refl
read_flags true false true true = refl
read_flags true false true false = refl
read_flags true false false true = refl
read_flags true false false false = refl
read_flags false true true true = refl
read_flags false true true false = refl
read_flags false true false true = refl
read_flags false true false false = refl
read_flags false false true true = refl
read_flags false false true false = refl
read_flags false false false true = refl
read_flags false false false false = refl

-- The header that `ToStringEncoding` writes for any list is read as the known encodings of the list.
pub read-to_string_encoding :
    (es : List Encoding)
    → read_encodings (to_string_encoding es ++ line_end) [] ≡ known_encodings es
unfolding to_string_encoding
read-to_string_encoding [] = unfold read_encodings in refl
read-to_string_encoding (e ∷ es) =
    let has : Encoding → Bool = λ x. has_encoding x (e ∷ es) in
    unfold flag_text in
    read_flags (has Encoding.gzip) (has Encoding.deflate) (has Encoding.br) (has Encoding.identity)
