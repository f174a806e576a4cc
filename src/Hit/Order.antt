-- ===== src/Hit/Order.antt =====
-- The order of hits, icing/index/hit/hit.h: posting lists and merges rely on it.
use external_icing.Base.{
  ℕ, ◌+◌, ◌/◌, ◌*◌, ◌^◌, ◌≤◌, ◌<◌, ◌≡◌, ◌↔◌, ◌⊎◌, inl, inr, Bool, true, not, arith, ◌==◌, ltb→lt,
  lt→ltb, trichotomy, below, same, above, ==_iff,
}
use external_icing.Hit.Fields.{hit_value-eq, flag-le-one}
use external_icing.Hit

-- The flags as a number: the frequency flag counts most, then the prefix-hit flag.
abbrev pub flags : ℕ → Bool → Bool → ℕ
flags frequency in_prefix prefix =
    Hit.to_word (not (frequency == 1)) * 4 + Hit.to_word prefix * 2 + Hit.to_word in_prefix

module _ (section document frequency section2 document2 frequency2 : ℕ)
    (in_prefix prefix in_prefix2 prefix2 : Bool) (section_fits : section ≤ Hit.max_section_id)
    (document_fits : document ≤ Hit.invalid_document_id)
    (section2_fits : section2 ≤ Hit.max_section_id)
    (document2_fits : document2 ≤ Hit.invalid_document_id) where
  -- Hits sort by document id downwards, then by section id upwards, then by their flags.
  pub less_than-hit :
      (Hit.less_than
          (Hit.hit section document frequency in_prefix prefix)
          (Hit.hit section2 document2 frequency2 in_prefix2 prefix2)
        ≡ true)
      ↔ ((document2 < document)
          ⊎ ((document ≡ document2)
              × ((section < section2)
                  ⊎ ((section ≡ section2)
                      × (flags frequency in_prefix prefix < flags frequency2 in_prefix2 prefix2)))))
  unfolding Hit.less_than Hit.hit
  less_than-hit =
      let v = Hit.hit_value section document frequency in_prefix prefix in
      let w = Hit.hit_value section2 document2 frequency2 in_prefix2 prefix2 in
      let e = hit_value-eq section document frequency in_prefix prefix section_fits document_fits in
      let e2 =
        hit_value-eq section2 document2 frequency2 in_prefix2 prefix2 section2_fits
          document2_fits in
      let f = flag-le-one (not (frequency == 1)) in
      let p = flag-le-one prefix in
      let i = flag-le-one in_prefix in
      let f2 = flag-le-one (not (frequency2 == 1)) in
      let p2 = flag-le-one prefix2 in
      let i2 = flag-le-one in_prefix2 in
      (
        λ h.
            let less = ltb→lt v w h in
            elim (trichotomy document document2) [
              | below d ↦ absurd (omega arith)
              | same d ↦ elim (trichotomy section section2) [
                | below s ↦ inr (d, inl s)
                | same s ↦ inr (d, inr (s, omega arith))
                | above s ↦ absurd (omega arith)
              ]
              | above d ↦ inl d
            ],
        λ c. lt→ltb v w (omega arith),
      )

  -- Two hits agree up to their flags exactly when they have the same document and section.
  pub equals_document_id_and_section_id-hit :
      (Hit.equals_document_id_and_section_id
          (Hit.hit section document frequency in_prefix prefix)
          (Hit.hit section2 document2 frequency2 in_prefix2 prefix2)
        ≡ true)
      ↔ ((document ≡ document2) × (section ≡ section2))
  unfolding Hit.equals_document_id_and_section_id Hit.hit
  equals_document_id_and_section_id-hit =
      let v = Hit.hit_value section document frequency in_prefix prefix in
      let w = Hit.hit_value section2 document2 frequency2 in_prefix2 prefix2 in
      let e = hit_value-eq section document frequency in_prefix prefix section_fits document_fits in
      let e2 =
        hit_value-eq section2 document2 frequency2 in_prefix2 prefix2 section2_fits
          document2_fits in
      let f = flag-le-one (not (frequency == 1)) in
      let p = flag-le-one prefix in
      let i = flag-le-one in_prefix in
      let f2 = flag-le-one (not (frequency2 == 1)) in
      let p2 = flag-le-one prefix2 in
      let i2 = flag-le-one in_prefix2 in
      (
        λ h. let same = (==_iff (v / 2 ^ 3) (w / 2 ^ 3)).0 h in (omega arith, omega arith),
        λ c. (==_iff (v / 2 ^ 3) (w / 2 ^ 3)).1 (omega arith),
      )
