-- ===== src/Hit/Fields.antt =====
-- What icing/index/hit/hit.cc packs into a hit can be read back.
use external_icing.Base.{
  ℕ, zero, suc, ◌∙◌, ◌+◌, ◌-◌, ◌/◌, ◌*◌, ◌%◌, ◌^◌, ◌≤◌, ◌<◌, ◌≡◌, refl, Bool, true, false, not,
  arith, ◌==◌, lt→ne,
}
use external_icing.Hit.Bitfield.{bitfield_get, bitfield_set, bitfield_get-eq, bitfield_set-below}
use external_icing.Hit

pub flag-le-one : (b : Bool) → Hit.to_word b ≤ 1
flag-le-one true = omega arith
flag-le-one false = omega arith

set_flag :
    (b : Bool) (offset value high : ℕ)
    → offset ≤ 2
    → value ≡ high * 2 ^ (offset + 1)
    → value < 2 ^ 32
    → bitfield_set (Hit.to_word b) offset 1 value ≡ value + Hit.to_word b * 2 ^ offset
set_flag b offset value high h e small =
    bitfield_set-below (Hit.to_word b) offset 1 value high (omega arith) e small
      (omega (arith, flag-le-one b)) (shifted b offset h) (shifted_small b offset h)
  where
    shifted : (b : Bool) (k : ℕ) → k ≤ 2 → Hit.to_word b * 2 ^ k < 2 ^ (k + 1)
    shifted b zero h = omega (arith, flag-le-one b)
    shifted b (suc zero) h = omega (arith, flag-le-one b)
    shifted b (suc (suc zero)) h = omega (arith, flag-le-one b)
    shifted b (suc (suc (suc k))) h = absurd (omega arith)

    shifted_small : (b : Bool) (k : ℕ) → k ≤ 2 → Hit.to_word b * 2 ^ k < 2 ^ 32
    shifted_small b zero h = omega (arith, flag-le-one b)
    shifted_small b (suc zero) h = omega (arith, flag-le-one b)
    shifted_small b (suc (suc zero)) h = omega (arith, flag-le-one b)
    shifted_small b (suc (suc (suc k))) h = absurd (omega arith)

-- The value of a hit as the sum of its fields.
pub hit_value-eq :
    (section document frequency : ℕ) (in_prefix prefix : Bool)
    → section ≤ Hit.max_section_id
    → document ≤ Hit.invalid_document_id
    → Hit.hit_value section document frequency in_prefix prefix
      ≡ (Hit.invalid_document_id - document) * 128
        + section * 8
        + Hit.to_word (not (frequency == 1)) * 4
        + Hit.to_word prefix * 2
        + Hit.to_word in_prefix
unfolding Hit.hit_value Hit.invert_document_id
hit_value-eq section document frequency in_prefix prefix section_fits document_fits =
    let inverted = Hit.invalid_document_id - document in
    let has_frequency = not (frequency == 1) in
    let f = Hit.to_word has_frequency in
    let p = Hit.to_word prefix in
    let e1 : bitfield_set inverted 7 20 0 ≡ 0 + inverted * 2 ^ 7 =
      bitfield_set-below inverted 7 20 0 0 (omega arith) (omega arith) (omega arith) (omega arith)
        (omega arith) (omega arith) in
    let v1 = 0 + inverted * 2 ^ 7 in
    let e2 : bitfield_set section 3 4 v1 ≡ v1 + section * 2 ^ 3 =
      bitfield_set-below section 3 4 v1 inverted (omega arith) (omega arith) (omega arith)
        (omega arith) (omega arith) (omega arith) in
    let v2 = v1 + section * 2 ^ 3 in
    let e3 : bitfield_set f 2 1 v2 ≡ v2 + f * 2 ^ 2 =
      set_flag has_frequency 2 v2 (inverted * 16 + section) (omega arith) (omega arith)
        (omega arith) in
    let v3 = v2 + f * 2 ^ 2 in
    let f_le = flag-le-one has_frequency in
    let e4 : bitfield_set p 1 1 v3 ≡ v3 + p * 2 ^ 1 =
      set_flag prefix 1 v3 (inverted * 32 + section * 2 + f) (omega arith) (omega arith)
        (omega arith) in
    let v4 = v3 + p * 2 ^ 1 in
    let p_le = flag-le-one prefix in
    rw (e1, e2, e3, e4)
      (set_flag in_prefix 0 v4 (inverted * 64 + section * 4 + f * 2 + p) (omega arith) (omega arith)
          (omega arith)
        ∙ omega arith)

to_word-eq : (b : Bool) → (Hit.to_word b == 0) ≡ not b
to_word-eq true = refl
to_word-eq false = refl

not-not : (b : Bool) → not (not b) ≡ b
not-not true = refl
not-not false = refl

read_flag :
    (value offset : ℕ) (b : Bool)
    → value / 2 ^ offset % 2 ^ 1 ≡ Hit.to_word b
    → not (bitfield_get value offset 1 == 0) ≡ b
read_flag value offset b e =
    rw (bitfield_get-eq value offset 1 (omega arith), e, to_word-eq b) (not-not b)

-- Whatever the constructor of `Hit` packs is read back: for a section id of at most
-- `kMaxSectionId` and a document id of at most `kInvalidDocumentId`, the document id, the section
-- id, the two prefix flags and the term frequency are those given, the frequency flag is set
-- exactly when the frequency is not the default one, and the hit is valid.
pub hit_fields :
    (section document frequency : ℕ) (in_prefix prefix : Bool)
    → section ≤ Hit.max_section_id
    → document ≤ Hit.invalid_document_id
    → let h = Hit.hit section document frequency in_prefix prefix in
      (Hit.document_id h ≡ document)
      × (Hit.section_id h ≡ section)
      × (Hit.is_prefix_hit h ≡ prefix)
      × (Hit.is_in_prefix_section h ≡ in_prefix)
      × (Hit.has_term_frequency h ≡ not (frequency == Hit.default_term_frequency))
      × (h.term_frequency ≡ frequency)
      × (Hit.is_valid h ≡ true)
unfolding Hit.hit Hit.document_id Hit.section_id Hit.is_prefix_hit Hit.is_in_prefix_section
    Hit.has_term_frequency Hit.is_valid Hit.invert_document_id
hit_fields section document frequency in_prefix prefix section_fits document_fits =
    let value = Hit.hit_value section document frequency in_prefix prefix in
    let e = hit_value-eq section document frequency in_prefix prefix section_fits document_fits in
    let f_le = flag-le-one (not (frequency == 1)) in
    let p_le = flag-le-one prefix in
    let i_le = flag-le-one in_prefix in
    let not_invalid : (value == Hit.invalid_value) ≡ false =
      lt→ne value Hit.invalid_value (omega arith) in
    (
      omega (arith, bitfield_get-eq value 7 20 (omega arith)),
      omega (arith, bitfield_get-eq value 3 4 (omega arith)),
      read_flag value 1 prefix (omega arith),
      read_flag value 0 in_prefix (omega arith),
      read_flag value 2 (not (frequency == 1)) (omega arith),
      refl,
      rw not_invalid,
    )
