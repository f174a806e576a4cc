-- ===== src/PostingList/Layout.antt =====
-- How a posting list of icing/index/main/posting-list-used.h lays out its hits, in its three states:
-- the diagrams of the class comment, as equations on the buffer.
use external_icing.Base.{
  ℕ, zero, suc, ◌+◌, ◌-◌, ◌^◌, ◌<◌, ◌≡◌, refl, sym, ap, ap₂, ◌∙◌, false, List, [], ◌∷◌, ◌++◌, arith,
  if◌then◌else◌, length, take, drop, replicate,
}
use external_icing.Hit.{Hit, invalid_value, default_term_frequency, has_term_frequency}
use external_icing.PostingList.{special_hits_size}
use external_icing.PostingList.Buffer.{write, word_bytes, from_bytes, hit_bytes, read_hit}
use external_icing.PostingList.VarInt.{encode}
use external_icing.PostingList.Used.{PostingListUsed, hit_of, invalid_hit}

-- The bytes of a term frequency, if the hit has one.
abbrev pub frequency_bytes : Hit → List ℕ
frequency_bytes hit = if has_term_frequency hit then hit.term_frequency ∷ [] else []

-- The compressed hits behind a hit of value `v`.
abbrev pub deltas : ℕ → List Hit → List ℕ
deltas v [] = []
deltas v (hit ∷ hits) = encode (hit.value - v) ++ (frequency_bytes hit ++ deltas hit.value hits)

-- The compressed area: the first hit stands there uncompressed.
abbrev pub area : List Hit → List ℕ
area [] = []
area (hit ∷ hits) = word_bytes hit.value ++ (frequency_bytes hit ++ deltas hit.value hits)

-- A valid hit, as its constructors make it: without the flag, the frequency is the default one.
pub record IsStorable (hit : Hit) : Type 0 where
  pub valid : hit.value < invalid_value
  pub frequency : has_term_frequency hit ≡ false → hit.term_frequency ≡ default_term_frequency

-- Valid hits of rising values above `v`.
abbrev pub Rising : ℕ → List Hit → Type 0
Rising v [] = Unit {0}
Rising v (hit ∷ hits) = (v < hit.value) × IsStorable hit × Rising hit.value hits

abbrev pub Ordered : List Hit → Type 0
Ordered [] = Unit {0}
Ordered (hit ∷ hits) = IsStorable hit × Rising hit.value hits

-- A buffer with two special hits and what is behind them.
abbrev pub specials : Hit → Hit → List ℕ → List ℕ
specials first second tail = hit_bytes first ++ (hit_bytes second ++ tail)

-- The states, with the hits of the list: not full, almost full and full.
pub data Layout (pl : PostingListUsed) : List Hit → Type 0 where
  not_full_layout :
      (junk : List ℕ) (hits : List Hit)
      → pl.posting_list_buffer
        ≡ specials (hit_of (special_hits_size + length junk)) invalid_hit (junk ++ area hits)
      → pl.size_in_bytes ≡ special_hits_size + length junk + length (area hits)
      → pl.size_in_bytes < invalid_value
      → Ordered hits
      → Layout pl hits
  almost_full_layout :
      (pad : ℕ) (hit : Hit) (hits : List Hit)
      → pl.posting_list_buffer ≡ specials invalid_hit hit (replicate pad 0 ++ deltas hit.value hits)
      → pl.size_in_bytes ≡ special_hits_size + pad + length (deltas hit.value hits)
      → pl.size_in_bytes < invalid_value
      → Ordered (hit ∷ hits)
      → Layout pl (hit ∷ hits)
  full_layout :
      (pad : ℕ) (first second : Hit) (hits : List Hit)
      → pl.posting_list_buffer ≡ specials first second (replicate pad 0 ++ deltas second.value hits)
      → pl.size_in_bytes ≡ special_hits_size + pad + length (deltas second.value hits)
      → pl.size_in_bytes < invalid_value
      → Ordered (first ∷ second ∷ hits)
      → Layout pl (first ∷ second ∷ hits)

-- Words and hits are read back.
from_bytes-word_bytes : (v : ℕ) → v < 2 ^ 32 → from_bytes (word_bytes v) ≡ v
from_bytes-word_bytes v h = omega arith

pub read_hit-first :
    (hit : Hit) (tail : List ℕ) → hit.value < 2 ^ 32 → read_hit (hit_bytes hit ++ tail) 0 ≡ hit
read_hit-first hit tail h =
    λ i. record { value = from_bytes-word_bytes hit.value h i; term_frequency = hit.term_frequency }

pub read_hit-second :
    (first second : Hit) (tail : List ℕ)
    → second.value < 2 ^ 32
    → read_hit (specials first second tail) 5 ≡ second
read_hit-second first second tail h = λ i. record {
  value = from_bytes-word_bytes second.value h i;
  term_frequency = second.term_frequency;
}

-- Dropping what stands in front.
pub drop-append : (xs ys : List ℕ) → drop (length xs) (xs ++ ys) ≡ ys
drop-append [] ys = refl
drop-append (x ∷ xs) ys = drop-append xs ys

pub take-append : (xs ys : List ℕ) → take (length xs) (xs ++ ys) ≡ xs
take-append [] ys = refl
take-append (x ∷ xs) ys = ap (◌∷◌ x) (take-append xs ys)

drop_nil : (n : ℕ) → drop {A = ℕ} n [] ≡ []
drop_nil zero = refl
drop_nil (suc n) = refl

pub drop-drop : (m n : ℕ) (xs : List ℕ) → drop (m + n) xs ≡ drop n (drop m xs)
drop-drop zero n xs = ap (λ (k : ℕ). drop k xs) (omega arith)
drop-drop (suc m) n [] = drop_nil (suc m + n) ∙ sym (drop_nil n)
drop-drop (suc m) n (x ∷ xs) =
    let sum : suc m + n ≡ suc (m + n) = omega arith in
    ap (λ (k : ℕ). drop k (x ∷ xs)) sum ∙ drop-drop m n xs

-- Writing over bytes in the middle.
pub write-middle :
    (front old back bytes : List ℕ)
    → length old ≡ length bytes
    → write (front ++ (old ++ back)) (length front) bytes ≡ front ++ (bytes ++ back)
write-middle front old back bytes e =
    let buffer = front ++ (old ++ back) in
    let behind : drop (length front + length bytes) buffer ≡ back =
      drop-drop (length front) (length bytes) buffer
      ∙ ap (drop (length bytes)) (drop-append front (old ++ back))
      ∙ ap (λ (k : ℕ). drop k (old ++ back)) (sym e)
      ∙ drop-append old back in
    ap₂ (λ (a b : List ℕ). a ++ (bytes ++ b)) (take-append front (old ++ back)) behind
