-- ===== src/Http/Files/Urls.antt =====
-- Abstractions/Http/HttpTypes.hpp: the parts of a URL.
use abstraction_layer.Prelude.{
  ◌+◌, ◌≡◌, refl, ap, ◌∙◌, append_assoc, none, some, [], ◌∷◌, ◌++◌, arith, length, length-append,
  le→leb,
}
use abstraction_layer.Prelude.Text.{Text, codes, find, substr, shift}
use abstraction_layer.Prelude.Text.Laws.{
  Lacks, find_past, find_here, take-append, drop-append, rfind-append, rfind-Lacks,
}
use abstraction_layer.Http.Files.{disect_url}

substr-front : (xs ys : Text) → substr (xs ++ ys) 0 (some (length xs)) ≡ some xs
unfolding substr
substr-front xs ys = rw (le→leb 0 (length (xs ++ ys)) (omega arith)) (ap some (take-append xs ys))

substr-back : (xs ys : Text) → substr (xs ++ ys) (length xs) none ≡ some ys
unfolding substr
substr-back xs ys =
    rw (le→leb (length xs) (length (xs ++ ys)) (omega (arith, length-append xs ys)))
      (ap some (drop-append xs ys))

find_colon :
    (scheme rest : Text)
    → Lacks b':' scheme
    → find (b':' ∷ []) (scheme ++ b':' ∷ rest) ≡ some (length scheme)
find_colon scheme rest h =
    find_past b':' [] scheme (b':' ∷ rest) h
    ∙ ap (shift (length scheme)) (find_here (b':' ∷ []) rest)
    ∙ ap some (omega arith)

after_colon :
    (scheme rest : Text)
    → substr (scheme ++ (codes "://" ++ rest)) (length scheme + 3) none ≡ some rest
after_colon scheme rest =
    ap (λ n. substr (scheme ++ (codes "://" ++ rest)) n none) {y = length (scheme ++ codes "://")}
      (omega (arith, length-append scheme (codes "://")))
    ∙ ap (λ t. substr t (length (scheme ++ codes "://")) none) {y = (scheme ++ codes "://") ++ rest}
        (simp append_assoc)
    ∙ substr-back (scheme ++ codes "://") rest

-- `DisectUrl` takes a URL apart at the first colon and at the last slash.
pub disect_url-join :
    (scheme domain_name path : Text)
    → Lacks b':' scheme
    → Lacks b'/' path
    → disect_url (scheme ++ (codes "://" ++ (domain_name ++ b'/' ∷ path)))
      ≡ some (record { scheme = scheme; domain_name = domain_name; path = b'/' ∷ path })
unfolding disect_url
disect_url-join scheme domain_name path hs hp =
    let rest = domain_name ++ b'/' ∷ path in
    rw
      (
        find_colon scheme (codes "//" ++ rest) hs,
        substr-front scheme (codes "://" ++ rest),
        after_colon scheme rest,
        rfind-append b'/' domain_name path hp,
        substr-front domain_name (b'/' ∷ path),
        substr-back domain_name (b'/' ∷ path),
      )
      refl

-- Without a slash behind the two that follow the scheme, `DisectUrl` throws.
pub disect_url_throws :
    (scheme rest : Text)
    → Lacks b':' scheme
    → Lacks b'/' rest
    → disect_url (scheme ++ (codes "://" ++ rest)) ≡ none
unfolding disect_url
disect_url_throws scheme rest hs hr =
    rw
      (
        find_colon scheme (codes "//" ++ rest) hs,
        substr-front scheme (codes "://" ++ rest),
        after_colon scheme rest,
        rfind-Lacks b'/' rest hr,
      )
      refl
