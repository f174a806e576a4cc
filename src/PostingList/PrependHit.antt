-- ===== src/PostingList/PrependHit.antt =====
-- PrependHit of icing/index/main/posting-list-used.cc on a list that has its first hit among the
-- special ones.
pub mod NotFull
pub mod Compress
pub mod AnyState
use external_icing.Base.{
  ℕ, zero, suc, ◌+◌, ◌-◌, ◌^◌, ◌≤◌, ◌<◌, ◌≡◌, refl, sym, ap, ap₂, ◌∙◌, subst, Bool, true, false,
  not, ◌&&◌, List, [], ◌∷◌, ◌++◌, arith, ltb, leb, if◌then◌else◌, length, length-append,
  length-replicate, take, replicate, Bool-cases, inl, inr,
}
use external_icing.Hit.{Hit, invalid_value, is_valid, has_term_frequency}
use external_icing.PostingList.{Code, ok, resource_exhausted, special_hits_size, hit_size}
use external_icing.PostingList.Used.{
  PostingListUsed, invalid_hit, special_hit, put, set_special_hit, start_at, full, almost_full,
  is_posting_list_valid,
}
use external_icing.PostingList.VarInt.{encode}
use external_icing.PostingList.Read.{get_pad_end}
use external_icing.PostingList.Prepend.{
  get_term_frequency_byte_size, prepend_hit_to_almost_full, prepend_hit,
}
use external_icing.PostingList.Layout.{
  frequency_bytes, deltas, IsStorable, Rising, Ordered, specials, Layout, almost_full_layout,
  full_layout,
}
use external_icing.PostingList.Contents.{drop-tail, get_pad_end_loop_lem}
use external_icing.PostingList.States.{
  is_valid-lt, is_valid-invalid, first_is, second_is, full_is, almost_full_is,
}
use external_icing.PostingList.Edits.{
  with_buffer, set_special_hit-0, set_special_hit-1, start_at-hit_size, put-put, replicate-add,
}

pub get_term_frequency_byte_size_lem :
    (hit : Hit) → get_term_frequency_byte_size hit ≡ length (frequency_bytes hit)
unfolding get_term_frequency_byte_size
get_term_frequency_byte_size_lem hit = elim (Bool-cases (has_term_frequency hit)) [
  | inl has ↦ rw has refl
  | inr lacks ↦ rw lacks refl
]

pub take-frequency_bytes :
    (hit : Hit)
    → take (get_term_frequency_byte_size hit) (hit.term_frequency ∷ []) ≡ frequency_bytes hit
unfolding get_term_frequency_byte_size
take-frequency_bytes hit = elim (Bool-cases (has_term_frequency hit)) [
  | inl has ↦ rw has refl
  | inr lacks ↦ rw lacks refl
]

length-zeros : (n : ℕ) → length (replicate {A = ℕ} n 0) ≡ n
length-zeros n = length-replicate {A = ℕ} n 0

module _ (pl : PostingListUsed) (pad : ℕ) (cur : Hit) (hits : List Hit)
    (buffer : pl.posting_list_buffer
      ≡ specials invalid_hit cur (replicate pad 0 ++ deltas cur.value hits))
    (size : pl.size_in_bytes ≡ special_hits_size + pad + length (deltas cur.value hits))
    (small : pl.size_in_bytes < invalid_value) (ordered : Ordered (cur ∷ hits)) (hit : Hit)
    (storable : IsStorable hit) (below : hit.value < cur.value) where
  abbrev tail : List ℕ
  tail = deltas cur.value hits

  abbrev code : List ℕ
  code = encode (cur.value - hit.value)

  cur_fits : cur.value < 2 ^ 32
  cur_fits = omega (arith, (ordered.0).valid)

  cur_is : special_hit pl 1 ≡ cur
  cur_is = second_is pl invalid_hit cur (replicate pad 0 ++ tail) buffer (omega arith) cur_fits

  pad_end : get_pad_end pl special_hits_size ≡ special_hits_size + pad
  unfolding get_pad_end
  pad_end =
      get_pad_end_loop_lem pl.size_in_bytes pl special_hits_size pad cur.value hits
        (drop-tail pl invalid_hit cur (replicate pad 0 ++ tail) buffer (omega arith) cur_fits) size
        ordered.1 (omega (arith, size))

  pub almost_full-full : full pl ≡ false
  almost_full-full =
      full_is pl invalid_hit cur (replicate pad 0 ++ tail) buffer (omega arith) cur_fits
      ∙ rw is_valid-invalid refl

  pub almost_full-almost_full : almost_full pl ≡ true
  almost_full-almost_full =
      almost_full_is pl invalid_hit cur (replicate pad 0 ++ tail) buffer (omega arith) cur_fits
      ∙ rw is_valid-invalid refl

  pub almost_full-valid : is_posting_list_valid pl ≡ true
  unfolding is_posting_list_valid
  almost_full-valid =
      rw almost_full-almost_full (ap is_valid cur_is ∙ is_valid-lt cur (ordered.0).valid)

  prepend_hit-parts : prepend_hit pl hit ≡ prepend_hit_to_almost_full pl hit
  unfolding prepend_hit
  prepend_hit-parts =
      rw
        (
          is_valid-lt hit storable.valid,
          almost_full-valid,
          almost_full-full,
          almost_full-almost_full,
        )
        refl

  above : leb cur.value hit.value ≡ false
  above = ground arith

  added-Ordered : Ordered (hit ∷ cur ∷ hits)
  added-Ordered = (storable, (below, ordered.0, ordered.1))

  -- Without room for the delta the hit becomes the first special one.
  without_room :
      leb (special_hits_size + length code + length (frequency_bytes cur)) (special_hits_size + pad)
        ≡ false
      → (prepend_hit_to_almost_full pl hit).0 ≡ ok
        × Layout (prepend_hit_to_almost_full pl hit).1 (hit ∷ cur ∷ hits)
  unfolding prepend_hit_to_almost_full
  without_room no_room =
      let added : prepend_hit_to_almost_full pl hit ≡ (ok, set_special_hit pl 0 hit) =
        rw
          (
            prepend_hit_to_almost_full,
            cur_is,
            pad_end,
            get_term_frequency_byte_size_lem cur,
            above,
            no_room,
          )
          refl in
      let laid_out = set_special_hit-0 pl invalid_hit cur hit (replicate pad 0 ++ tail) buffer in
      subst (λ (r : Code × PostingListUsed). (r.0 ≡ ok) × Layout r.1 (hit ∷ cur ∷ hits))
        (sym (added ∙ ap (λ (p : PostingListUsed). (ok, p)) laid_out))
        (refl, full_layout pad hit cur hits refl size small added-Ordered)

  -- The list with the delta of the special hit behind it.
  abbrev compressed : ℕ → PostingListUsed
  compressed k =
      with_buffer pl
        (specials invalid_hit hit (replicate k 0 ++ (code ++ (frequency_bytes cur ++ tail))))

  compressed_is :
      (k : ℕ)
      → pad ≡ k + (length code + length (frequency_bytes cur))
      → start_at
          (set_special_hit
            (put
              (put pl (special_hits_size + k) code)
              (special_hits_size + k + length code)
              (frequency_bytes cur))
            1
            hit)
          hit_size
        ≡ compressed k
  compressed_is k room =
      let pads : replicate pad 0 ++ tail
          ≡ replicate k 0
            ++ (replicate (length code) 0 ++ (replicate (length (frequency_bytes cur)) 0 ++ tail)) =
        ap (λ (n : ℕ). replicate n 0 ++ tail) room
        ∙ replicate-add k (length code + length (frequency_bytes cur)) tail
        ∙ ap (λ (xs : List ℕ). replicate k 0 ++ xs)
            (replicate-add (length code) (length (frequency_bytes cur)) tail) in
      let stored = replicate k 0 ++ (code ++ (frequency_bytes cur ++ tail)) in
      let written =
        put-put pl invalid_hit cur (replicate k 0) (replicate (length code) 0)
          (replicate (length (frequency_bytes cur)) 0) tail code (frequency_bytes cur)
          (special_hits_size + k) (buffer ∙ ap (specials invalid_hit cur) pads)
          (omega (arith, length-zeros k)) (length-zeros (length code))
          (length-zeros (length (frequency_bytes cur))) in
      ap (λ (p : PostingListUsed). start_at (set_special_hit p 1 hit) hit_size) written
      ∙ ap (λ (p : PostingListUsed). start_at p hit_size)
          (set_special_hit-1 (with_buffer pl (specials invalid_hit cur stored)) invalid_hit cur hit
            stored refl)
      ∙ start_at-hit_size (with_buffer pl (specials invalid_hit hit stored)) invalid_hit hit hit
          stored refl (omega (arith, size))

  -- With room the special hit is compressed, and the new hit takes its place.
  with_room :
      leb (special_hits_size + length code + length (frequency_bytes cur)) (special_hits_size + pad)
        ≡ true
      → (prepend_hit_to_almost_full pl hit).0 ≡ ok
        × Layout (prepend_hit_to_almost_full pl hit).1 (hit ∷ cur ∷ hits)
  unfolding prepend_hit_to_almost_full
  with_room room =
      let k : ℕ = pad - (length code + length (frequency_bytes cur)) in
      let fits : pad ≡ k + (length code + length (frequency_bytes cur)) = ground (arith, room) in
      let place : special_hits_size + pad - length code - length (frequency_bytes cur)
          ≡ special_hits_size + k =
        omega (arith, fits) in
      let taken : take (length (frequency_bytes cur)) (cur.term_frequency ∷ [])
          ≡ frequency_bytes cur =
        ap (λ (n : ℕ). take n (cur.term_frequency ∷ []))
          (sym (get_term_frequency_byte_size_lem cur))
        ∙ take-frequency_bytes cur in
      let added : prepend_hit_to_almost_full pl hit ≡ (ok, compressed k) =
        rw
          (
            prepend_hit_to_almost_full,
            cur_is,
            pad_end,
            get_term_frequency_byte_size_lem cur,
            above,
            room,
            place,
            taken,
          )
          (ap (λ (p : PostingListUsed). (ok, p)) (compressed_is k fits)) in
      subst (λ (r : Code × PostingListUsed). (r.0 ≡ ok) × Layout r.1 (hit ∷ cur ∷ hits)) (sym added)
        (
          refl,
          almost_full_layout k hit (cur ∷ hits) refl
              (omega (
                arith,
                size,
                fits,
                length-append code (frequency_bytes cur ++ tail),
                length-append (frequency_bytes cur) tail,
              ))
              small added-Ordered,
        )

  -- An almost full list takes every hit below its own.
  pub prepend_hit-almost_full :
      ((prepend_hit pl hit).0 ≡ ok) × Layout (prepend_hit pl hit).1 (hit ∷ cur ∷ hits)
  prepend_hit-almost_full =
      subst (λ (r : Code × PostingListUsed). (r.0 ≡ ok) × Layout r.1 (hit ∷ cur ∷ hits))
        (sym prepend_hit-parts)
        (elim (Bool-cases (
          leb (special_hits_size + length code + length (frequency_bytes cur))
            (special_hits_size + pad))) [
              | inl room ↦ with_room room
              | inr no_room ↦ without_room no_room
            ])
