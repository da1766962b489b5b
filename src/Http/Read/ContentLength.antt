-- ===== src/Http/Read/ContentLength.antt =====
-- Abstractions/Http/HttpTypes.hpp: the content length, written and read.
use abstraction_layer.Prelude.{
  ℕ, ◌+◌, ◌<◌, ◌≤◌, ◌≡◌, ap, subst₂, ◌∙◌, append_assoc, ◌%◌, false, some, ◌∷◌, ◌++◌, length,
  length-append, arith, u32, le→ltb,
}
use abstraction_layer.Prelude.Text.{
  Text, codes, to_string, starts_with_digit, find, stoul, drop, shift,
}
use abstraction_layer.Prelude.Text.Laws.{Lacks, find_past, find_here, drop-append}
use abstraction_layer.Prelude.Text.Numbers.{stoul-to_string}
use abstraction_layer.Http.Print.{to_string_content_length}
use abstraction_layer.Http.Read.{read_content_length, length_at, number_at, to_bytes}

number_at-stoul :
    (text : Text) (start n : ℕ)
    → start ≤ length text
    → stoul (drop start text) ≡ some n
    → number_at text start ≡ some n
unfolding number_at
number_at-stoul text start n room number = rw (le→ltb (length text) start room) number

read_at :
    (text : Text) (i n known : ℕ)
    → find (codes "Content-Length:") text ≡ some i
    → i + 16 ≤ length text
    → stoul (drop (i + 16) text) ≡ some n
    → length_at text known (find (codes "Content-Length:") text) ≡ some (n % u32)
read_at text i n known found room number =
    ap (length_at text known) found
    ∙ (unfold length_at in
        ap to_bytes (
          number_at-stoul text (i + 15 + 1) n (omega arith)
            (ap (λ k. stoul (drop k text)) (omega arith) ∙ number)))

-- The length that `ToStringContentLength` writes is read again, wherever the header stands behind a
-- text without a `C`, if it fits 32 bits and no digit follows.
pub read-to_string_content_length :
    (before rest : Text) (n known : ℕ)
    → Lacks b'C' before
    → n < u32
    → starts_with_digit rest ≡ false
    → read_content_length (before ++ (to_string_content_length n ++ rest)) known ≡ some n
unfolding read_content_length to_string_content_length
read-to_string_content_length before rest n known lacks fits h =
    let name = codes "Content-Length: " in
    let number = to_string n ++ rest in
    let text = before ++ (name ++ number) in
    let found : find (codes "Content-Length:") text ≡ some (length before + 0) =
      find_past b'C' (codes "ontent-Length:") before (name ++ number) lacks
      ∙ ap (shift (length before)) (find_here (codes "Content-Length:") (32 ∷ number)) in
    let skipped : drop (length before + 16) text ≡ number =
      subst₂ (λ k t. drop k t ≡ number) (length-append before name)
        (append_assoc before name number) (drop-append (before ++ name) number) in
    let read =
      read_at text (length before + 0) n known found
        (omega (arith, length-append before (name ++ number)))
        (ap (λ k. stoul (drop k text)) (omega arith)
          ∙ ap stoul skipped
          ∙ stoul-to_string n rest (omega arith) h) in
    read ∙ ap some (omega arith)
