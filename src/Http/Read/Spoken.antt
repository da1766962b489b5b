-- ===== src/Http/Read/Spoken.antt =====
-- Abstractions/Http/HttpTypes.hpp: what a search for the value of a header finds, and the header of
-- the languages, written and read.
use abstraction_layer.Prelude.{
  ℕ, ◌-◌, ◌≤◌, ◌≡◌, refl, sym, ap, ◌∙◌, inl, inr, Bool, true, false, ◌||◌, ◌&&◌, any, any-at,
  Option, none, some, List, [], ◌∷◌, ◌++◌, length, le→leb, Bool-cases, arith,
}
use abstraction_layer.Prelude.Text.{
  Text, codes, line_end, take, drop, shift, find, find_from, contains,
}
use abstraction_layer.Prelude.Text.Laws.{Lacks, find_past}
use abstraction_layer.Prelude.Text.Search.{contains_grow, take_longer, find-split, lacks-Lacks}
use abstraction_layer.Error.{success, is_success}
use abstraction_layer.Http.Languages.{Language, same_language, gujarati, telugu}
use abstraction_layer.Http.Tags.{ReadTag, read_tags}
use abstraction_layer.Http.Print.{has_language}
use abstraction_layer.Http.Read.{
  value_between, find_header_value, has_header, is_asked_for, read_languages_of, read_languages,
}

-- The end of a line, behind a text without a carriage return.
pub find-line_end :
    (before rest : Text)
    → Lacks 13 before
    → find line_end (before ++ rest) ≡ shift (length before) (find line_end rest)
find-line_end = find_past 13 (10 ∷ [])

pub find_from-some :
    (needle text : Text) (start : ℕ)
    → start ≤ length text
    → find_from needle text (some start) ≡ shift start (find needle (drop start text))
unfolding find_from
find_from-some needle text start h = rw (le→leb start (length text) h) refl

le_of_shifts : (a b : ℕ) (o : Option ℕ) (i : ℕ) → shift a (shift b o) ≡ some i → b ≤ i
le_of_shifts a b none i h = cc
le_of_shifts a b (some j) i h = ground arith

pub value_found :
    (request value part : Text) (start stop : ℕ)
    → take stop (drop start request) ≡ part
    → contains value part ≡ true
    → value_between request value (some start) (some stop) ≡ success
unfolding value_between
value_found request value part start stop e h = rw (e, h) refl

-- A value that is a part of the header's name is found in every request that has the header and a
-- line end behind it, whatever the header says.
pub find_header_value-name :
    (request name value : Text) (start stop : ℕ)
    → Lacks 13 name
    → contains value name ≡ true
    → find name request ≡ some start
    → find_from line_end request (some start) ≡ some stop
    → find_header_value request name value ≡ success
unfolding find_header_value
find_header_value-name request name value start stop clear part found ends =
    let (bound, (rest, here)) = find-split name request start found in
    let far : length name ≤ stop = le_of_shifts start (length name) (find line_end rest) stop (
      ap (shift start) (sym (ap (find line_end) here ∙ find-line_end name rest clear))
      ∙ sym (find_from-some line_end request start bound)
      ∙ ends) in
    ap (λ o. value_between request value o (find_from line_end request o)) found
    ∙ ap (value_between request value (some start)) ends
    ∙ value_found request value (name ++ take (stop - length name) rest) start stop
        (ap (take stop) here ∙ take_longer stop name rest far)
        (contains_grow value name (take (stop - length name) rest) part)

or_mono : (a b c : Bool) → (b ≡ true → c ≡ true) → a || b ≡ true → a || c ≡ true
or_mono true b c f h = refl
or_mono false b c f h = f h

pub or_left : (a b : Bool) → a ≡ true → a || b ≡ true
or_left true b h = refl
or_left false b h = cc

pub or_right : (a b : Bool) → b ≡ true → a || b ≡ true
or_right true b h = refl
or_right false b h = h

pub or_later : (a b : Bool) → a ≡ false → a || b ≡ true → b ≡ true
or_later true b e h = cc
or_later false b e h = h

has_language-append :
    (l : Language) (xs ys : List Language)
    → has_language l xs ≡ true
    → has_language l (xs ++ ys) ≡ true
unfolding has_language
has_language-append l [] ys h = cc
has_language-append l (x ∷ xs) ys h =
    or_mono (same_language x l) _ _ (has_language-append l xs ys) h

has_language_last :
    (l m : Language) (xs : List Language)
    → same_language m l ≡ true
    → has_language l (xs ++ m ∷ []) ≡ true
unfolding has_language
has_language_last l m [] h = rw h refl
has_language_last l m (x ∷ xs) h = or_right (same_language x l) _ (has_language_last l m xs h)

is_kept :
    (l : Language) (table : List ReadTag) (text : Text) (known : List Language)
    → has_language l known ≡ true
    → has_language l (read_languages_of table text known) ≡ true
unfolding read_languages_of
is_kept l [] text known h = h
is_kept l (t ∷ table) text known h =
    is_kept l table text _ (elim (Bool-cases (is_asked_for t text)) [
      | inl e ↦ rw e (has_language-append l known (t.0 ∷ []) h)
      | inr e ↦ rw e h
    ])

abbrev no_tag : ReadTag
no_tag = (gujarati, [], none)

-- Whether the request asks for the language under an entry of the table.
abbrev pub asks : Language → Text → ReadTag → Bool
asks l text t = same_language t.0 l && is_asked_for t text

pub and_left : (a b : Bool) → a && b ≡ true → a ≡ true
and_left a b h = ground arith

pub and_right : (a b : Bool) → a && b ≡ true → b ≡ true
and_right a b h = ground arith

asks-same :
    (l : Language) (text : Text) (t : ReadTag) → asks l text t ≡ true → same_language t.0 l ≡ true
asks-same l text t h = and_left (same_language t.0 l) (is_asked_for t text) h

asks-asked :
    (l : Language) (text : Text) (t : ReadTag) → asks l text t ≡ true → is_asked_for t text ≡ true
asks-asked l text t h = and_right (same_language t.0 l) (is_asked_for t text) h

pub is_read_of :
    (l : Language) (table : List ReadTag) (text : Text) (known : List Language)
    → any (asks l text) table ≡ true
    → has_language l (read_languages_of table text known) ≡ true
unfolding read_languages_of
is_read_of l [] text known h = cc
is_read_of l (t ∷ table) text known h = elim (Bool-cases (asks l text t)) [
  | inl e ↦
      is_kept l table text _
        (rw (asks-asked l text t e) (has_language_last l t.0 known (asks-same l text t e)))
  | inr e ↦ is_read_of l table text _ (or_later (asks l text t) _ e h)
]

-- Every request with a `Content-Language` header is read as one in Gujarati and in Telugu: "gu" and
-- "te" are parts of the header's name.
pub read_languages-header :
    (request : Text) (known : List Language) (start stop : ℕ)
    → find (codes "Content-Language:") request ≡ some start
    → find_from line_end request (some start) ≡ some stop
    → (has_language gujarati (read_languages request known) ≡ true)
      × (has_language telugu (read_languages request known) ≡ true)
unfolding read_languages same_language
read_languages-header request known start stop found ends =
    let name = codes "Content-Language:" in
    let asked : (tag : Text) → contains tag name ≡ true → has_header request name tag ≡ true =
      λ tag part. ap is_success (
        find_header_value-name request name tag start stop (lacks-Lacks 13 name refl) part found
          ends) in
    (
      is_read_of gujarati read_tags request known (
          any-at (asks gujarati request) read_tags 32 no_tag (omega arith)
            (or_left _ _ (asked (codes "gu") refl))),
      is_read_of telugu read_tags request known (
          any-at (asks telugu request) read_tags 89 no_tag (omega arith)
            (or_left _ _ (asked (codes "te") refl))),
    )
