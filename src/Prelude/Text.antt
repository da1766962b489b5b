-- ===== src/Prelude/Text.antt =====
-- What the code uses of `std::string` and `std::string_view`: a text is the list of its bytes, and
-- `none` is `npos`, or the exception of a call that is out of range.
pub mod Laws
pub mod Numbers
pub mod Search
use Prim.Native.Char.{code}
use Prim.Native.String.{String}
use Prim.Native.Nat.{ℕ, zero, suc, ◌+◌, ◌*◌, ◌-◌, ◌≤◌, ◌^◌, ◌%◌, ◌/◌}
use mathlib.Core.Bool.{Bool, true, false, ◌&&◌, ◌||◌}
use mathlib.Core.Option.{Option, none, some}
use mathlib.Core.List.{List, [], ◌∷◌, ◌++◌}
use abstraction_layer.Prelude.Tests.{ltb, leb, ◌==◌, if◌then◌else◌}
use abstraction_layer.Prelude.Lists.{length}

abbrev pub Text : Type 0
Text = List ℕ

-- The bytes of a literal.
abbrev pub codes : String → Text
codes String.[] = []
codes (String.◌∷◌ c s) = code c ∷ codes s

abbrev pub line_end : Text
line_end = 13 ∷ 10 ∷ []

module _ {ℓ} {A : Type ℓ} where
  abbrev pub take : ℕ → List A → List A
  take zero xs = []
  take (suc n) [] = []
  take (suc n) (x ∷ xs) = x ∷ take n xs

  abbrev pub drop : ℕ → List A → List A
  drop zero xs = xs
  drop (suc n) [] = []
  drop (suc n) (x ∷ xs) = drop n xs

  abbrev pub is_some : Option A → Bool
  is_some none = false
  is_some (some a) = true

-- An index `n` further.
abbrev pub shift : ℕ → Option ℕ → Option ℕ
shift n none = none
shift n (some i) = some (n + i)

-- `0 == strncmp(text, prefix, strlen(prefix))`, for a text that no zero ends early.
unfoldable pub is_prefix : Text → Text → Bool
is_prefix [] ys = true
is_prefix (x ∷ xs) [] = false
is_prefix (x ∷ xs) (y ∷ ys) = (x == y) && is_prefix xs ys

-- `hay.find(needle)`.
unfoldable pub find : Text → Text → Option ℕ
unfolding is_prefix
find needle [] = if is_prefix needle [] then some 0 else none
find needle (y ∷ ys) =
    let later = shift 1 (find needle ys) in if is_prefix needle (y ∷ ys) then some 0 else later

-- `hay.find(needle, start)`.
unfoldable pub find_from : Text → Text → Option ℕ → Option ℕ
unfolding find
find_from needle hay none = none
find_from needle hay (some start) =
    if leb start (length hay) then shift start (find needle (drop start hay)) else none

-- `npos != hay.find(needle)`.
unfoldable pub contains : Text → Text → Bool
unfolding find
contains needle hay = is_some (find needle hay)

-- `text.substr(start, count)`.
unfoldable pub substr : Text → ℕ → Option ℕ → Option Text
substr text start none = if leb start (length text) then some (drop start text) else none
substr text start (some count) =
    if leb start (length text) then some (take count (drop start text)) else none

-- `text.rfind(c)`.
unfoldable pub rfind : ℕ → Text → Option ℕ
rfind c [] = none
rfind c (x ∷ xs) = elim (rfind c xs) [
  | some i ↦ some (suc i)
  | none ↦ if x == c then some 0 else none
]

-- `std::to_string`: the digits before those in `out`.
unfoldable pub decimal : ℕ → ℕ → Text → Text
decimal zero n out = out
decimal (suc fuel) n out =
    let more = decimal fuel (n / 10) ((b'0' + n % 10) ∷ out) in
    if ltb n 10 then (b'0' + n) ∷ out else more

-- `n + 1` rounds are enough for the digits of `n`.
unfoldable pub to_string : ℕ → Text
unfolding decimal
to_string n = decimal (suc n) n []

-- `std::stoul` with base 10: white space, a sign and digits. `none` is `std::invalid_argument` or
-- `std::out_of_range`; `unsigned long` has 64 bits.
unfoldable pub digits : Text → ℕ → ℕ
digits [] value = value
digits (c ∷ s) value =
    let more = digits s (value * 10 + (c - b'0')) in
    if leb b'0' c && leb c b'9' then more else value

abbrev pub starts_with_digit : Text → Bool
starts_with_digit [] = false
starts_with_digit (c ∷ s) = leb b'0' c && leb c b'9'

unfoldable pub unsigned : Text → Option ℕ
unfolding digits
unsigned s =
    if starts_with_digit s
    then (if ltb (digits s 0) (2 ^ 64) then some (digits s 0) else none)
    else none

abbrev pub negated : Option ℕ → Option ℕ
negated none = none
negated (some n) = some ((2 ^ 64 - n) % 2 ^ 64)

unfoldable pub signed : Text → Option ℕ
unfolding unsigned
signed [] = none
signed (c ∷ s) =
    if c == b'-' then negated (unsigned s) else if c == b'+' then unsigned s else unsigned (c ∷ s)

unfoldable pub stoul : Text → Option ℕ
unfolding signed
stoul [] = none
stoul (c ∷ s) =
    let rest = stoul s in if (c == 32) || (leb 9 c && leb c 13) then rest else signed (c ∷ s)
