-- ===== src/Prelude/Text/Numbers.antt =====
-- `std::stoul` reads what `std::to_string` writes.
use Prim.Native.Nat.{ℕ, zero, suc, ◌+◌, ◌*◌, ◌<◌, ◌/◌, ◌%◌, ◌^◌}
use mathlib.Core.Path.{◌≡◌, refl, ◌∙◌}
use mathlib.Core.Bool.{true, false}
use mathlib.Core.Option.{some}
use mathlib.Core.List.{[], ◌∷◌, ◌++◌}
use native.Mathlib.Omega.{arith}
use abstraction_layer.Prelude.Text.{Text, decimal, digits, to_string, stoul, starts_with_digit}

digits-cons :
    (d : ℕ) (out : Text) (v : ℕ) → d < 10 → digits ((48 + d) ∷ out) v ≡ digits out (v * 10 + d)
unfolding digits
digits-cons d out v h = ground arith

-- The digits of a number are read as the number.
digits-decimal : (fuel n : ℕ) (out : Text) → n < fuel → digits (decimal fuel n out) 0 ≡ digits out n
unfolding decimal
digits-decimal zero n out h = absurd (omega arith)
digits-decimal (suc fuel) n out h = ground (
  arith,
  digits-cons n out 0,
  digits-cons (n % 10) out (n / 10),
  digits-decimal fuel (n / 10) ((48 + n % 10) ∷ out),
)

starts-decimal :
    (fuel n : ℕ) (out : Text) → n < fuel → starts_with_digit (decimal fuel n out) ≡ true
unfolding decimal
starts-decimal zero n out h = absurd (omega arith)
starts-decimal (suc fuel) n out h =
    ground (arith, starts-decimal fuel (n / 10) ((48 + n % 10) ∷ out))

decimal-append :
    (fuel n : ℕ) (out rest : Text) → decimal fuel n out ++ rest ≡ decimal fuel n (out ++ rest)
unfolding decimal
decimal-append zero n out rest = refl
decimal-append (suc fuel) n out rest =
    ground (arith, decimal-append fuel (n / 10) ((48 + n % 10) ∷ out) rest)

digits_stop : (rest : Text) (v : ℕ) → starts_with_digit rest ≡ false → digits rest v ≡ v
unfolding digits
digits_stop [] v h = refl
digits_stop (c ∷ rest) v h = ground arith

stoul-digits :
    (s : Text) → starts_with_digit s ≡ true → digits s 0 < 2 ^ 64 → stoul s ≡ some (digits s 0)
unfolding stoul
stoul-digits [] h _ = cc
stoul-digits (c ∷ s) h fits = ground arith

-- `std::stoul` reads the number that `std::to_string` wrote, if no digit follows.
pub stoul-to_string :
    (n : ℕ) (rest : Text)
    → n < 2 ^ 64
    → starts_with_digit rest ≡ false
    → stoul (to_string n ++ rest) ≡ some n
unfolding to_string
stoul-to_string n rest fits h =
    let value = digits-decimal (suc n) n rest (omega arith) ∙ digits_stop rest n h in
    rw decimal-append (
      cc (
        value,
        stoul-digits (decimal (suc n) n rest) (starts-decimal (suc n) n rest (omega arith))
            (rw value fits),
      ))
