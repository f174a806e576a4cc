-- ===== src/PostingList/PrependHit/Compress.antt =====
-- PrependHitToNotFull of icing/index/main/posting-list-used.cc: the first hit of the list is
-- compressed, and where the new one goes depends on the room.
use external_icing.Base.{
  ℕ, ◌+◌, ◌-◌, ◌≤◌, ◌<◌, ◌≡◌, refl, sym, ap, ◌∙◌, subst, false, List, [], ◌∷◌, ◌++◌, arith, ltb,
  leb, if◌then◌else◌, length, length-append, length-replicate, take, drop, replicate, Bool-cases,
  inl, inr,
}
use external_icing.Hit.{Hit, invalid_value}
use external_icing.PostingList.{Code, ok, special_hits_size, hit_size, value_size}
use external_icing.PostingList.Buffer.{read_word, word_bytes}
use external_icing.PostingList.Used.{
  PostingListUsed, hit_of, invalid_hit, put, pad_to_end, set_special_hit, start_at,
}
use external_icing.PostingList.VarInt.{encode}
use external_icing.PostingList.Reading.{consume_term_frequency_if_present_lem}
use external_icing.PostingList.Prepend.{
  prepend_uncompressed_at, move_to_special, prepend_hit_to_not_full,
}
use external_icing.PostingList.Layout.{
  frequency_bytes, deltas, area, IsStorable, Ordered, specials, Layout, not_full_layout,
  almost_full_layout, full_layout, drop-drop,
}
use external_icing.PostingList.States.{drop-start, read_word-area}
use external_icing.PostingList.Edits.{
  with_buffer, set_special_hit-0, set_special_hit-1, start_at-hit_size, put-area, append_assoc,
  split_at,
}
use external_icing.PostingList.PrependHit.{get_term_frequency_byte_size_lem}
use external_icing.PostingList.PrependHit.NotFull.{prepend_uncompressed_at_lem}

module _ (pl : PostingListUsed) (junk : List ℕ) (cur : Hit) (hits : List Hit)
    (buffer : pl.posting_list_buffer
      ≡ specials (hit_of (special_hits_size + length junk)) invalid_hit (junk ++ area (cur ∷ hits)))
    (size : pl.size_in_bytes ≡ special_hits_size + length junk + length (area (cur ∷ hits)))
    (small : pl.size_in_bytes < invalid_value) (ordered : Ordered (cur ∷ hits)) (hit : Hit)
    (storable : IsStorable hit) (below : hit.value < cur.value) where
  abbrev start : ℕ
  start = special_hits_size + length junk

  -- What stands behind the value of the first hit, what is in front, and the delta.
  abbrev tail : List ℕ
  tail = frequency_bytes cur ++ deltas cur.value hits

  abbrev room : List ℕ
  room = junk ++ word_bytes cur.value

  abbrev code : List ℕ
  code = encode (cur.value - hit.value)

  length-room : length room ≡ length junk + value_size
  length-room = length-append junk (word_bytes cur.value)

  buffer_is : pl.posting_list_buffer ≡ specials (hit_of start) invalid_hit (room ++ tail)
  buffer_is =
      buffer
      ∙ ap (specials (hit_of start) invalid_hit)
          (sym (append_assoc junk (word_bytes cur.value) tail))

  size_is : pl.size_in_bytes ≡ start + value_size + length tail
  size_is = omega (arith, size)

  added-Ordered : Ordered (hit ∷ cur ∷ hits)
  added-Ordered = (storable, (below, ordered.0, ordered.1))

  cur_is : read_word pl.posting_list_buffer start ≡ cur.value
  cur_is =
      read_word-area pl.posting_list_buffer start cur tail (omega (arith, (ordered.0).valid))
        (drop-start pl junk (cur ∷ hits) buffer size small ordered)

  above : leb cur.value hit.value ≡ false
  above = ground arith

  inside : ltb pl.size_in_bytes (start + value_size) ≡ false
  inside = ground (arith, size_is)

  -- The delta, written at the end of the room.
  with_delta :
      (front old : List ℕ)
      → room ≡ front ++ old
      → length old ≡ length code
      → put pl (start + value_size - length code) code
        ≡ with_buffer pl (specials (hit_of start) invalid_hit (front ++ (code ++ tail)))
  with_delta front old parts same =
      put-area pl (hit_of start) invalid_hit front old tail code (start + value_size - length code)
        (buffer_is
          ∙ ap (λ (xs : List ℕ). specials (hit_of start) invalid_hit (xs ++ tail)) parts
          ∙ ap (specials (hit_of start) invalid_hit) (append_assoc front old tail))
        (omega (arith, length-room, ap length parts, length-append front old, same)) same

  -- Room for the new hit too: it stands uncompressed in front of the delta.
  uncompressed :
      length code + length (frequency_bytes hit) ≤ length junk
      → Layout
          (prepend_uncompressed_at
            (put pl (start + value_size - length code) code)
            hit
            (start + value_size - length code))
          (hit ∷ cur ∷ hits)
  uncompressed fits =
      let new_size = value_size + length (frequency_bytes hit) in
      let split = split_at (length room - length code) room (omega arith) in
      let front = take (length room - length code) room in
      let old = drop (length room - length code) room in
      let split' = split_at (length front - new_size) front (omega arith) in
      let front' = take (length front - new_size) front in
      let old' = drop (length front - new_size) front in
      let stored = front' ++ (old' ++ (code ++ tail)) in
      let same : length old ≡ length code = omega (arith, split.2, length-room, fits) in
      let same' : length old' ≡ new_size = omega (arith, split'.2, split.1, length-room, fits) in
      let written =
        with_delta front old split.0 same
        ∙ ap (λ (xs : List ℕ). with_buffer pl (specials (hit_of start) invalid_hit xs))
            (ap (λ (xs : List ℕ). xs ++ (code ++ tail)) split'.0
              ∙ append_assoc front' old' (code ++ tail)) in
      let offset = start + value_size - length code in
      let there : offset ≡ special_hits_size + length front' + length old' =
        omega (arith, split'.2, split'.1, split.1, length-room, fits) in
      let added =
        ap (λ (p : PostingListUsed). prepend_uncompressed_at p hit offset) written
        ∙ prepend_uncompressed_at_lem (with_buffer pl (specials (hit_of start) invalid_hit stored))
            (hit_of start) invalid_hit hit front' old' (code ++ tail) offset refl same' there
            (omega (arith, size_is)) in
      subst (λ (p : PostingListUsed). Layout p (hit ∷ cur ∷ hits)) (sym added)
        (not_full_layout front' (hit ∷ cur ∷ hits) refl
          (omega (
            arith,
            size_is,
            there,
            same',
            fits,
            length-append code tail,
            length-append (frequency_bytes hit) (code ++ tail),
          ))
          small added-Ordered)

  -- Room for the delta alone: the new hit becomes the special one.
  special :
      length code ≤ length junk + value_size
      → Layout
          (start_at
            (set_special_hit
              (pad_to_end
                (put pl (start + value_size - length code) code)
                special_hits_size
                (start + value_size - length code))
              1
              hit)
            hit_size)
          (hit ∷ cur ∷ hits)
  unfolding pad_to_end
  special fits =
      let k : ℕ = length room - length code in
      let split = split_at k room (omega arith) in
      let front = take k room in
      let old = drop k room in
      let offset = start + value_size - length code in
      let same : length old ≡ length code = omega (arith, split.2, length-room, fits) in
      let gap : offset - special_hits_size ≡ k = omega (arith, length-room, fits) in
      let written = with_delta front old split.0 same in
      let within : ltb pl.size_in_bytes offset ≡ false = ground (arith, size_is) in
      let first = hit_of start in
      let before = with_buffer pl (specials first invalid_hit (front ++ (code ++ tail))) in
      let padded = replicate k 0 ++ (code ++ tail) in
      let padded_is : pad_to_end before special_hits_size offset
          ≡ with_buffer pl (specials first invalid_hit padded) =
        rw (within, gap)
          (put-area before first invalid_hit [] front (code ++ tail) (replicate k 0)
            special_hits_size refl refl (split.1 ∙ sym (length-replicate {A = ℕ} k 0))) in
      let added =
        ap
          (λ (p : PostingListUsed).
            start_at (set_special_hit (pad_to_end p special_hits_size offset) 1 hit) hit_size)
          written
        ∙ ap (λ (p : PostingListUsed). start_at (set_special_hit p 1 hit) hit_size) padded_is
        ∙ ap (λ (p : PostingListUsed). start_at p hit_size)
            (set_special_hit-1 (with_buffer pl (specials first invalid_hit padded)) first
              invalid_hit hit padded refl)
        ∙ start_at-hit_size (with_buffer pl (specials first hit padded)) first hit hit padded refl
            (omega (arith, size_is)) in
      subst (λ (p : PostingListUsed). Layout p (hit ∷ cur ∷ hits)) (sym added)
        (almost_full_layout k hit (cur ∷ hits) refl
          (omega (arith, size_is, length-room, fits, length-append code tail)) small added-Ordered)

  -- No room for the delta: both hits become special ones.
  moved : Layout (move_to_special pl hit cur.value (start + value_size)) (hit ∷ cur ∷ hits)
  unfolding pad_to_end move_to_special
  moved =
      let offset = start + value_size in
      let behind = offset + length (frequency_bytes cur) in
      let k : ℕ = length room + length (frequency_bytes cur) in
      let lengths = length-append (frequency_bytes cur) (deltas cur.value hits) in
      let at : drop offset pl.posting_list_buffer ≡ tail =
        drop-drop start value_size pl.posting_list_buffer
        ∙ ap (drop value_size) (drop-start pl junk (cur ∷ hits) buffer size small ordered) in
      let consumed =
        consume_term_frequency_if_present_lem pl cur offset (deltas cur.value hits) ordered.0 at
          (omega (arith, size_is, lengths)) in
      let first = hit_of start in
      let gap : behind - special_hits_size ≡ k = omega (arith, length-room) in
      let within : ltb pl.size_in_bytes behind ≡ false = ground (arith, size_is, lengths) in
      let padded = replicate k 0 ++ deltas cur.value hits in
      let padded_is : pad_to_end pl special_hits_size behind
          ≡ with_buffer pl (specials first invalid_hit padded) =
        rw (within, gap)
          (put-area pl first invalid_hit [] (room ++ frequency_bytes cur) (deltas cur.value hits)
            (replicate k 0) special_hits_size
            (buffer_is
              ∙ ap (specials first invalid_hit)
                  (sym (append_assoc room (frequency_bytes cur) (deltas cur.value hits))))
            refl (length-append room (frequency_bytes cur) ∙ sym (length-replicate {A = ℕ} k 0))) in
      let stored : move_to_special pl hit cur.value offset
          ≡ set_special_hit (set_special_hit (pad_to_end pl special_hits_size behind) 1 cur) 0 hit =
        rw (move_to_special, consumed) refl in
      let added =
        stored
        ∙ ap (λ (p : PostingListUsed). set_special_hit (set_special_hit p 1 cur) 0 hit) padded_is
        ∙ ap (λ (p : PostingListUsed). set_special_hit p 0 hit)
            (set_special_hit-1 (with_buffer pl (specials first invalid_hit padded)) first
              invalid_hit cur padded refl)
        ∙ set_special_hit-0 (with_buffer pl (specials first cur padded)) first cur hit padded
            refl in
      subst (λ (p : PostingListUsed). Layout p (hit ∷ cur ∷ hits)) (sym added)
        (full_layout k hit cur hits refl (omega (arith, size_is, length-room, lengths)) small
          added-Ordered)

  -- What PrependHitToNotFull gives, by the room in the list.
  by_room : prepend_hit_to_not_full pl hit start ≡ (
      if leb
        (special_hits_size + value_size + length code + length (frequency_bytes hit))
        (start + value_size)
      then (
        ok,
        prepend_uncompressed_at
            (put pl (start + value_size - length code) code)
            hit
            (start + value_size - length code),
      )
      else if leb (special_hits_size + length code) (start + value_size)
      then (
        ok,
        start_at
            (set_special_hit
              (pad_to_end
                (put pl (start + value_size - length code) code)
                special_hits_size
                (start + value_size - length code))
              1
              hit)
            hit_size,
      )
      else (ok, move_to_special pl hit cur.value (start + value_size)))
  unfolding prepend_hit_to_not_full
  by_room =
      rw (prepend_hit_to_not_full, cur_is, inside, above, get_term_frequency_byte_size_lem hit) refl

  pub prepend_hit_to_not_full_lem :
      ((prepend_hit_to_not_full pl hit start).0 ≡ ok)
      × Layout (prepend_hit_to_not_full pl hit start).1 (hit ∷ cur ∷ hits)
  prepend_hit_to_not_full_lem =
      let Added : Code × PostingListUsed → Type 0 =
        λ r. (r.0 ≡ ok) × Layout r.1 (hit ∷ cur ∷ hits) in
      let ample =
        leb (special_hits_size + value_size + length code + length (frequency_bytes hit))
          (start + value_size) in
      let enough = leb (special_hits_size + length code) (start + value_size) in
      subst Added (sym by_room) (elim (Bool-cases ample) [
        | inl fits ↦ rw fits (refl, uncompressed (ground (arith, fits)))
        | inr tight ↦ elim (Bool-cases enough) [
          | inl fits ↦ rw (tight, fits) (refl, special (ground (arith, fits)))
          | inr neither ↦ rw (tight, neither) (refl, moved)
        ]
      ])
