-- ===== src/Http/Read/Printed.antt =====
-- Abstractions/Http/HttpTypes.hpp: the header of the languages, written and read.
use abstraction_layer.Prelude.{
  ℕ, ◌+◌, ◌≡◌, refl, sym, ap, subst, ◌∙◌, inl, inr, ◌⊎◌, Bool, true, false, ◌&&◌, ◌==◌, any,
  any_mono, some, List, [], ◌∷◌, ◌++◌, append_assoc, append-nil, if◌then◌else◌, length,
  length-append, Bool-cases, arith,
}
use abstraction_layer.Prelude.Text.{Text, codes, line_end, take, shift, find_from, contains}
use abstraction_layer.Prelude.Text.Laws.{Lacks, All-append, find_here, take-append}
use abstraction_layer.Prelude.Text.Search.{contains_grow, contains_behind, lacks, lacks-Lacks}
use abstraction_layer.Error.{is_success}
use abstraction_layer.Http.Languages.{Language, language_value, same_language}
use abstraction_layer.Http.Tags.{ReadTag, read_tags, PrintedTag, printed_tags}
use abstraction_layer.Http.Print.{
  has_language, print_tags, separator, drop_last_two, to_string_content_language,
}
use abstraction_layer.Http.Read.{value_between, has_header, read_languages}
use abstraction_layer.Http.Read.Spoken.{
  find-line_end, find_from-some, value_found, is_read_of, asks, and_left, and_right, or_left,
  or_right, or_later,
}

-- Whether the language is written under a tag that contains the text.
abbrev prints : Language → Text → PrintedTag → Bool
prints l tag p = same_language p.0 l && contains tag p.1

-- Whether the language is searched for by a tag under which it is written.
abbrev pub pairs : Language → ReadTag → Bool
pairs l t = same_language t.0 l && any (prints l t.1) printed_tags

unfoldable pub is_paired : Language → Bool
is_paired l = any (pairs l) read_tags

-- The header with the tags, without the last comma, and the rest of the request.
tags_read :
    (tags tag : Text)
    → Lacks 13 tags
    → contains tag tags ≡ true
    → has_header ((codes "Content-Language: " ++ tags) ++ line_end) (codes "Content-Language:") tag
      ≡ true
unfolding has_header
tags_read tags tag clear h =
    let line = codes "Content-Language: " ++ tags in
    let text = line ++ line_end in
    let name = codes "Content-Language:" in
    let clear_line =
      All-append _ (codes "Content-Language: ") tags
        (lacks-Lacks 13 (codes "Content-Language: ") refl) clear in
    let ends : find_from line_end text (some 0) ≡ some (length line + 0) =
      find_from-some line_end text 0 (omega arith)
      ∙ ap (shift 0) (
          find-line_end line line_end clear_line ∙ ap (shift (length line)) (find_here line_end []))
      ∙ ap some (omega arith) in
    ap is_success (
      ap (λ o. value_between text tag o (find_from line_end text o))
        (find_here name (32 ∷ (tags ++ line_end)))
      ∙ ap (value_between text tag (some 0)) ends
      ∙ value_found text tag line 0 (length line + 0)
          (ap (λ n. take n text) {y = length line} (omega arith) ∙ take-append line line_end)
          (contains_behind tag (codes "Content-Language: ") tags h))

-- Nothing, or a text and a separator behind it.
abbrev Ends : Text → Type 0
Ends s = (s ≡ []) ⊎ ((front : Text) × (s ≡ front ++ separator))

-- A text with what is searched for, and a separator behind it.
abbrev Holds : Text → Text → Type 0
Holds tag s = (front : Text) × ((s ≡ front ++ separator) × (contains tag front ≡ true))

Ends-append : (x s : Text) → Ends x → Ends s → Ends (x ++ s)
Ends-append x s hx (inl e) = rw (e, append-nil) hx
Ends-append x s hx (inr (front, e)) = inr (x ++ front, rw e (sym (append_assoc x front separator)))

Holds-append : (tag x s : Text) → Holds tag s → Holds tag (x ++ s)
Holds-append tag x s (front, (e, h)) =
    (x ++ front, (rw e (sym (append_assoc x front separator)), contains_behind tag x front h))

Holds-first : (tag t s : Text) → contains tag t ≡ true → Ends s → Holds tag ((t ++ separator) ++ s)
Holds-first tag t s h (inl e) = (t, (rw (e, append-nil) refl, h))
Holds-first tag t s h (inr (front, e)) = (
  (t ++ separator) ++ front,
  (
    rw e (sym (append_assoc (t ++ separator) front separator)),
    contains_grow tag (t ++ separator) front (contains_grow tag t separator h),
  ),
)

-- The text of one language.
abbrev one_tag : PrintedTag → List Language → Text
one_tag p ls = if has_language p.0 ls then p.1 ++ separator else []

one_tag-Ends : (p : PrintedTag) (ls : List Language) → Ends (one_tag p ls)
one_tag-Ends p ls = elim (Bool-cases (has_language p.0 ls)) [
  | inl e ↦ inr (p.1, rw e refl)
  | inr e ↦ inl (rw e refl)
]

print_tags-Ends : (table : List PrintedTag) (ls : List Language) → Ends (print_tags table ls)
unfolding print_tags
print_tags-Ends [] ls = inl refl
print_tags-Ends (p ∷ table) ls =
    Ends-append (one_tag p ls) (print_tags table ls) (one_tag-Ends p ls) (print_tags-Ends table ls)

==_join : (a b c : ℕ) → (a == c) ≡ true → (b == c) ≡ true → (a == b) ≡ true
==_join a b c h k = ground arith

same_language-join :
    (k m l : Language)
    → same_language k l ≡ true
    → same_language m l ≡ true
    → same_language k m ≡ true
unfolding same_language
same_language-join k m l = ==_join (language_value k) (language_value m) (language_value l)

has_language-same :
    (l m : Language) (ls : List Language)
    → same_language m l ≡ true
    → has_language l ls ≡ true
    → has_language m ls ≡ true
unfolding has_language
has_language-same l m [] same h = h
has_language-same l m (x ∷ xs) same h = elim (Bool-cases (same_language x l)) [
  | inl e ↦ or_left _ _ (same_language-join x m l e same)
  | inr e ↦ or_right _ _ (has_language-same l m xs same (or_later _ _ e h))
]

-- A language of the list is printed, and what its tag contains stands before the last separator.
print_tags-Holds :
    (l : Language) (tag : Text) (table : List PrintedTag) (ls : List Language)
    → has_language l ls ≡ true
    → any (prints l tag) table ≡ true
    → Holds tag (print_tags table ls)
unfolding print_tags
print_tags-Holds l tag [] ls here h = cc
print_tags-Holds l tag (p ∷ table) ls here h = elim (Bool-cases (prints l tag p)) [
  | inl e ↦ rw (has_language-same l p.0 ls (and_left _ (contains tag p.1) e) here) (
      Holds-first tag p.1 (print_tags table ls) (and_right (same_language p.0 l) _ e)
        (print_tags-Ends table ls))
  | inr e ↦
      Holds-append tag (one_tag p ls) (print_tags table ls)
        (print_tags-Holds l tag table ls here (or_later _ _ e h))
]

-- No tag has a carriage return.
tags_lack : List PrintedTag → Bool
tags_lack [] = true
tags_lack (p ∷ table) = lacks 13 p.1 && tags_lack table

one_tag-Lacks : (p : PrintedTag) (ls : List Language) → Lacks 13 p.1 → Lacks 13 (one_tag p ls)
one_tag-Lacks p ls h = elim (Bool-cases (has_language p.0 ls)) [
  | inl e ↦ rw e (All-append _ p.1 separator h (lacks-Lacks 13 separator refl))
  | inr e ↦ rw e tt
]

print_tags-Lacks :
    (table : List PrintedTag) (ls : List Language)
    → tags_lack table ≡ true
    → Lacks 13 (print_tags table ls)
unfolding print_tags tags_lack
print_tags-Lacks [] ls h = tt
print_tags-Lacks (p ∷ table) ls h =
    All-append _ (one_tag p ls) (print_tags table ls)
      (one_tag-Lacks p ls (lacks-Lacks 13 p.1 (and_left _ (tags_lack table) h)))
      (print_tags-Lacks table ls (and_right (lacks 13 p.1) _ h))

Lacks-front : (c : ℕ) (front rest : Text) → Lacks c (front ++ rest) → Lacks c front
Lacks-front c [] rest h = tt
Lacks-front c (x ∷ front) rest (h, hs) = (h, Lacks-front c front rest hs)

drop_last_two-separator : (front : Text) → drop_last_two (front ++ separator) ≡ front
drop_last_two-separator front =
    ap (λ n. take n (front ++ separator)) {y = length front}
      (omega (arith, length-append front separator))
    ∙ take-append front separator

both : (a b : Bool) → a ≡ true → b ≡ true → a && b ≡ true
both true b h k = k
both false b h k = h

-- The header for a text of tags, without its last separator.
abbrev header : Text → Text
header tags = drop_last_two (codes "Content-Language: " ++ tags) ++ line_end

-- What a language is searched for by, the header has.
header-asks :
    (l : Language) (ls : List Language) (t : ReadTag)
    → has_language l ls ≡ true
    → pairs l t ≡ true
    → asks l (header (print_tags printed_tags ls)) t ≡ true
header-asks l ls t here h =
    let name = codes "Content-Language: " in
    let printed = print_tags printed_tags ls in
    let (front, (e, found)) =
      print_tags-Holds l t.1 printed_tags ls here (and_right (same_language t.0 l) _ h) in
    let clear =
      Lacks-front 13 front separator
        (subst (Lacks 13) e (print_tags-Lacks printed_tags ls (unfold tags_lack in refl))) in
    let shorter : drop_last_two (name ++ printed) ≡ name ++ front =
      ap (λ s. drop_last_two (name ++ s)) e
      ∙ ap drop_last_two (sym (append_assoc name front separator))
      ∙ drop_last_two-separator (name ++ front) in
    both (same_language t.0 l) _ (and_left (same_language t.0 l) _ h) (
      or_left _ _ (
        subst (λ s. has_header (s ++ line_end) (codes "Content-Language:") t.1 ≡ true) (sym shorter)
          (tags_read front t.1 clear found)))

-- A language that is written under a tag that it is searched for by is read again from the header
-- that `ToStringContentLanguage` writes for a list with it.
pub read_languages-print :
    (l : Language) (ls : List Language)
    → is_paired l ≡ true
    → has_language l ls ≡ true
    → has_language l (read_languages (to_string_content_language ls ++ line_end) []) ≡ true
unfolding read_languages to_string_content_language is_paired has_language
read_languages-print l [] paired here = cc
read_languages-print l (m ∷ ms) paired here =
    is_read_of l read_tags (header (print_tags printed_tags (m ∷ ms))) [] (
      any_mono (pairs l) (asks l (header (print_tags printed_tags (m ∷ ms)))) read_tags
        (λ t. header-asks l (m ∷ ms) t here) paired)
