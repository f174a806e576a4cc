-- ===== src/PostingList/VarInt/RoundTrip.antt =====
-- What VarInt::Encode writes, VarInt::Decode reads back.
use external_icing.Base.{
  ℕ, zero, suc, ◌+◌, ◌*◌, ◌/◌, ◌%◌, ◌^◌, ◌≤◌, ◌<◌, bit_or, ◌≡◌, refl, ap, ap₂, ◌∙◌, List, ◌∷◌, ◌++◌,
  arith, leb, ◌==◌, length, Bool-cases, inl, inr, true, false,
}
use external_icing.Base.Bits.{bit_or_disjoint}
use native.Mathlib.Nat.{pow-suc, mod-eq_of_lt, mul-le-mul_right}
use external_icing.PostingList.VarInt.{encode, encode_loop, decode, decode_loop}

seven_more : (offset : ℕ) → 2 ^ (offset + 7) ≡ 128 * 2 ^ offset
seven_more offset =
    let steps : offset + 7 ≡ suc (suc (suc (suc (suc (suc (suc offset)))))) = omega arith in
    ap (λ (k : ℕ). 2 ^ k) steps
    ∙ omega (
      arith,
      pow-suc 2 offset,
      pow-suc 2 (suc offset),
      pow-suc 2 (suc (suc offset)),
      pow-suc 2 (suc (suc (suc offset))),
      pow-suc 2 (suc (suc (suc (suc offset)))),
      pow-suc 2 (suc (suc (suc (suc (suc offset))))),
      pow-suc 2 (suc (suc (suc (suc (suc (suc offset)))))),
    )

-- A number times a power, in terms of its groups.
groups : (n p : ℕ) → n * p ≡ n / 128 * (128 * p) + n % 128 * p
groups n p =
    let parts : n ≡ 128 * (n / 128) + n % 128 = omega arith in
    omega (arith, ap (λ (k : ℕ). k * p) parts)

-- One group is added above the bits read so far.
add_group :
    (width offset n x : ℕ)
    → n < 2 ^ offset
    → x * 2 ^ offset < 2 ^ width
    → bit_or (x * 2 ^ offset % 2 ^ width) n ≡ x * 2 ^ offset + n
add_group width offset n x h fits =
    let whole : x * 2 ^ offset % 2 ^ width ≡ x * 2 ^ offset = mod-eq_of_lt fits in
    ap (λ (k : ℕ). bit_or k n) whole ∙ bit_or_disjoint offset x n h

decode_loop_last :
    (width offset acc len b : ℕ) (rest : List ℕ)
    → b < 128
    → acc < 2 ^ offset
    → b * 2 ^ offset < 2 ^ width
    → decode_loop width offset acc len (b ∷ rest) ≡ (b * 2 ^ offset + acc, suc len)
unfolding decode_loop
decode_loop_last width offset acc len b rest small h fits =
    let whole : b % 128 ≡ b = omega arith in
    let added = add_group width offset acc b h fits in
    let last : leb 128 b ≡ false = ground arith in rw (last, whole, added) refl

decode_loop_more :
    (width offset acc len x : ℕ) (rest : List ℕ)
    → x < 128
    → acc < 2 ^ offset
    → x * 2 ^ offset < 2 ^ width
    → decode_loop width offset acc len ((128 + x) ∷ rest)
      ≡ decode_loop width (offset + 7) (x * 2 ^ offset + acc) (suc len) rest
unfolding decode_loop
decode_loop_more width offset acc len x rest small h fits =
    let whole : (128 + x) % 128 ≡ x = omega arith in
    let added = add_group width offset acc x h fits in
    let more : leb 128 (128 + x) ≡ true = ground arith in rw (more, whole, added) refl

decode-encode_loop :
    (fuel n width offset acc len : ℕ) (rest : List ℕ)
    → n < 128 ^ suc fuel
    → acc < 2 ^ offset
    → n * 2 ^ offset < 2 ^ width
    → decode_loop width offset acc len (encode_loop fuel n ++ rest)
      ≡ (n * 2 ^ offset + acc, len + length (encode_loop fuel n))
unfolding encode_loop
decode-encode_loop zero n width offset acc len rest bound h fits =
    let small : n < 128 = omega (arith, bound, pow-suc 128 0) in
    let same : n % 128 ≡ n = omega arith in
    ap (λ (b : ℕ). decode_loop width offset acc len (b ∷ rest)) same
    ∙ decode_loop_last width offset acc len n rest small h fits
    ∙ ap (λ (k : ℕ). (n * 2 ^ offset + acc, k)) (omega arith)
decode-encode_loop (suc fuel) n width offset acc len rest bound h fits =
    elim (Bool-cases (n / 128 == 0)) [
      | inl last ↦
          let small : n < 128 = ground (arith, last) in
          let same : n % 128 ≡ n = omega arith in
          rw last (
            ap (λ (b : ℕ). decode_loop width offset acc len (b ∷ rest)) same
            ∙ decode_loop_last width offset acc len n rest small h fits
            ∙ ap (λ (k : ℕ). (n * 2 ^ offset + acc, k)) (omega arith))
      | inr more ↦
          let p = 2 ^ offset in
          let x = n % 128 in
          let split = groups n p in
          let next = seven_more offset in
          let few : x * p ≤ 127 * p = mul-le-mul_right p (omega arith) in
          let next_acc : x * p + acc < 2 ^ (offset + 7) = omega (arith, few, next, h) in
          let fewer : n / 128 < 128 ^ suc fuel = omega (arith, bound, pow-suc 128 (suc fuel)) in
          let scaled : n / 128 * 2 ^ (offset + 7) ≡ n / 128 * (128 * p) =
            ap (λ (k : ℕ). n / 128 * k) next in
          rw more (
            decode_loop_more width offset acc len x (encode_loop fuel (n / 128) ++ rest)
              (omega arith) h (omega (arith, split))
            ∙ decode-encode_loop fuel (n / 128) width (offset + 7) (x * p + acc) (suc len) rest
                fewer next_acc (omega (arith, scaled, split))
            ∙ ap₂ (λ (a b : ℕ). (a, b)) (omega (arith, scaled, split)) (omega arith))
    ]

-- A number that fits a narrower type is read back at that width too.
pub decode-encode_within :
    (width n : ℕ) (rest : List ℕ)
    → n < 2 ^ 64
    → n < 2 ^ width
    → decode width (encode n ++ rest) ≡ (n, length (encode n))
unfolding decode encode
decode-encode_within width n rest h fits =
    decode-encode_loop 9 n width 0 0 0 rest (omega arith) (omega arith) (omega arith)
    ∙ ap₂ (λ (a b : ℕ). (a, b)) (omega arith) (omega arith)

-- Decoding an encoded `uint64_t` gives the number and the length of its code, whatever bytes
-- follow.
pub decode-encode :
    (n : ℕ) (rest : List ℕ) → n < 2 ^ 64 → decode 64 (encode n ++ rest) ≡ (n, length (encode n))
decode-encode n rest h = decode-encode_within 64 n rest h h
