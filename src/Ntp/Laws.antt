-- ===== src/Ntp/Laws.antt =====
-- Applications/NtpClient: the fields of the first byte of a request, and the time of a reply.
use abstraction_layer.Prelude.{
  ℕ, suc, ◌+◌, ◌*◌, ◌/◌, ◌%◌, ◌^◌, ◌<◌, ◌≡◌, refl, sym, ap, ◌∙◌, arith, Bool, true, List, [], ◌∷◌,
  ◌++◌, ◌==◌, ==_iff, length, get_or, replicate, u32, holds_below, holds_below-at,
}
use abstraction_layer.Error.{success}
use abstraction_layer.Ntp.{
  IpClient, network_to_host_byte_order, first_byte, word_at, seventy_years_in_seconds, current_time,
}

abbrev keeps : ℕ → Bool
unfolding first_byte
keeps x = first_byte (x / 64) (x / 8 % 8) (x % 8) == x

all_kept : holds_below keeps 256 ≡ true
unfolding holds_below keeps first_byte
all_kept = refl

first_byte_sum :
    (leap_indicator version mode : ℕ)
    → leap_indicator < 4
    → version < 8
    → mode < 8
    → first_byte leap_indicator version mode ≡ leap_indicator * 64 + version * 8 + mode
unfolding keeps first_byte
first_byte_sum leap_indicator version mode a b c =
    let x = leap_indicator * 64 + version * 8 + mode in
    let p : leap_indicator ≡ x / 64 = omega arith in
    let q : version ≡ x / 8 % 8 = omega arith in
    let r : mode ≡ x % 8 = omega arith in
    (λ i. first_byte (p i) (q i) (r i))
    ∙ (==_iff (first_byte (x / 64) (x / 8 % 8) (x % 8)) x).0
        (holds_below-at keeps 256 x (omega arith) all_kept)

-- The receiver reads the leap indicator, the version and the mode of the request from its first byte,
-- if they fit their two, three and three bits.
pub first_byte_fields :
    (leap_indicator version mode : ℕ)
    → leap_indicator < 4
    → version < 8
    → mode < 8
    → (let byte = first_byte leap_indicator version mode in
        (byte / 2 ^ 6 ≡ leap_indicator) × (byte / 2 ^ 3 % 2 ^ 3 ≡ version) × (byte % 2 ^ 3 ≡ mode))
first_byte_fields leap_indicator version mode a b c =
    let e = first_byte_sum leap_indicator version mode a b c in
    (omega (arith, e), omega (arith, e), omega (arith, e))

-- The four bytes of a number, the highest first.
abbrev pub network_bytes : ℕ → List ℕ
network_bytes v = (v / 2 ^ 24) ∷ (v / 2 ^ 16 % 2 ^ 8) ∷ (v / 2 ^ 8 % 2 ^ 8) ∷ (v % 2 ^ 8) ∷ []

get_or-append :
    (front back : List ℕ) (i d : ℕ) → get_or (front ++ back) (length front + i) d ≡ get_or back i d
get_or-append [] back i d = rw (zero_plus i) refl
  where
    zero_plus : (n : ℕ) → 0 + n ≡ n
    zero_plus n = omega arith
get_or-append (x ∷ front) back i d = rw (suc_plus (length front) i) (get_or-append front back i d)
  where
    suc_plus : (n m : ℕ) → suc n + m ≡ suc (n + m)
    suc_plus n m = omega arith

word_at-network_bytes :
    (front rest : List ℕ) (stray : ℕ → ℕ) (v : ℕ)
    → v < 2 ^ 32
    → length front ≡ 32
    → network_to_host_byte_order (word_at (front ++ (network_bytes v ++ rest)) stray 32) ≡ v
unfolding network_to_host_byte_order
word_at-network_bytes front rest stray v small long =
    let buffer = front ++ (network_bytes v ++ rest) in
    let at = λ (i k : ℕ) (e : length front + i ≡ k).
      ap (λ j. get_or buffer j (stray k)) (sym e)
      ∙ get_or-append front (network_bytes v ++ rest) i (stray k) in
    swapped _ _ _ _ v small (at 0 32 (omega arith)) (at 1 33 (omega arith)) (at 2 34 (omega arith))
      (at 3 35 (omega arith))
  where
    swapped :
        (a b c d v : ℕ)
        → v < 2 ^ 32
        → a ≡ v / 2 ^ 24
        → b ≡ v / 2 ^ 16 % 2 ^ 8
        → c ≡ v / 2 ^ 8 % 2 ^ 8
        → d ≡ v % 2 ^ 8
        → network_to_host_byte_order (a + b * 2 ^ 8 + c * 2 ^ 16 + d * 2 ^ 24) ≡ v
    swapped a b c d v h p q r t = omega arith

-- The time of a reply: for every Unix time that fits 32 bits, a buffer that has its NTP time
-- of 32 bits at byte 32 gives that Unix time, also where the NTP time wraps at 2 ^ 32, if both calls succeed.
pub current_time-network_bytes :
    {W : Type 0} (ip : IpClient W) (stray : ℕ → ℕ) (timeout leap_indicator version mode unix : ℕ)
    (front rest : List ℕ) (w w₁ w₂ : W)
    → unix < u32
    → length front ≡ 32
    → (let packet = first_byte leap_indicator version mode ∷ replicate 47 0 in
        ip.send_blocking packet timeout w ≡ (success, w₁))
    → (let packet = first_byte leap_indicator version mode ∷ replicate 47 0 in
        ip.receive_blocking packet timeout w₁
        ≡ (success, front ++ (network_bytes ((unix + seventy_years_in_seconds) % u32) ++ rest), w₂))
    → current_time ip stray timeout leap_indicator version mode w ≡ (success, unix, w₂)
unfolding current_time
current_time-network_bytes ip stray timeout leap version mode unix front rest w w₁ w₂ small long
      sent received =
    let ntp = (unix + seventy_years_in_seconds) % u32 in
    rw (sent, received, word_at-network_bytes front rest stray ntp (omega arith) long)
      (ap (λ t. (success, t, w₂)) (omega arith))
