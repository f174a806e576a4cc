-- ===== src/PostingList/Prepend.antt =====
-- Adding hits in front: PrependHit and its cases by the state of the list.
use external_icing.Base.{
  ℕ, ◌+◌, ◌-◌, not, [], ◌∷◌, Option, none, some, ltb, leb, ◌==◌, if◌then◌else◌, length, take,
}
use external_icing.Hit.{Hit, is_valid, has_term_frequency}
use external_icing.PostingList.{
  hit_size, value_size, term_frequency_size, special_hits_size, Code, ok, invalid_argument,
  failed_precondition, resource_exhausted,
}
use external_icing.PostingList.Buffer.{read_word, word_bytes, hit_bytes}
use external_icing.PostingList.VarInt.{encode}
use external_icing.PostingList.Used.{
  PostingListUsed, hit_of, special_hit, set_special_hit, put, pad_to_end, start_at, full,
  almost_full, empty, is_posting_list_valid, get_start_byte_offset,
}
use external_icing.PostingList.Read.{get_pad_end, consume_term_frequency_if_present}

-- GetTermFrequencyByteSize
unfoldable pub get_term_frequency_byte_size : Hit → ℕ
get_term_frequency_byte_size hit = if has_term_frequency hit then term_frequency_size else 0

-- PrependHitUncompressed: the offset of the hit and the list afterwards, or none without room.
unfoldable pub prepend_hit_uncompressed : PostingListUsed → Hit → ℕ → Option (ℕ × PostingListUsed)
prepend_hit_uncompressed pl hit offset =
    if has_term_frequency hit
    then (if ltb offset (special_hits_size + hit_size)
        then none
        else some (offset - hit_size, put pl (offset - hit_size) (hit_bytes hit)))
    else (if ltb offset (special_hits_size + value_size)
        then none
        else some (offset - value_size, put pl (offset - value_size) (word_bytes hit.value)))

-- `PrependHitUncompressed(...).ValueOrDie()` and the offset that is then set; the list stays as it
-- is where the code would abort.
unfoldable pub prepend_uncompressed_at : PostingListUsed → Hit → ℕ → PostingListUsed
unfolding prepend_hit_uncompressed
prepend_uncompressed_at pl hit offset = elim (prepend_hit_uncompressed pl hit offset) [
  | none ↦ pl
  | some (at, written) ↦ start_at written at
]

-- PrependHitToAlmostFull
unfoldable pub prepend_hit_to_almost_full : PostingListUsed → Hit → Code × PostingListUsed
unfolding get_term_frequency_byte_size
prepend_hit_to_almost_full pl hit =
    let cur = special_hit pl 1 in
    let delta_buf = encode (cur.value - hit.value) in
    let delta_len = length delta_buf in
    let cur_term_frequency_bytes = get_term_frequency_byte_size cur in
    let pad_end = get_pad_end pl special_hits_size in
    let delta_offset = pad_end - delta_len - cur_term_frequency_bytes in
    let with_delta = put pl delta_offset delta_buf in
    let with_frequency =
      put with_delta (delta_offset + delta_len)
        (take cur_term_frequency_bytes (cur.term_frequency ∷ [])) in
    if leb cur.value hit.value
    then (invalid_argument, pl)
    else if leb (special_hits_size + delta_len + cur_term_frequency_bytes) pad_end
    then (ok, start_at (set_special_hit with_frequency 1 hit) hit_size)
    else (ok, set_special_hit pl 0 hit)

-- PrependHitToEmpty
unfoldable pub prepend_hit_to_empty : PostingListUsed → Hit → PostingListUsed
unfolding prepend_uncompressed_at
prepend_hit_to_empty pl hit =
    if pl.size_in_bytes == special_hits_size
    then start_at (set_special_hit pl 1 hit) hit_size
    else prepend_uncompressed_at pl hit pl.size_in_bytes

-- The last case of PrependHitToNotFull: the delta does not fit either. The code ignores the status
-- of ConsumeTermFrequencyIfPresent.
unfoldable pub move_to_special : PostingListUsed → Hit → ℕ → ℕ → PostingListUsed
move_to_special pl hit cur_value offset =
    elim (consume_term_frequency_if_present pl (hit_of cur_value) offset) [
      | none ↦
          set_special_hit
            (set_special_hit (pad_to_end pl special_hits_size offset) 1 (hit_of cur_value)) 0 hit
      | some (cur, behind) ↦
          set_special_hit (set_special_hit (pad_to_end pl special_hits_size behind) 1 cur) 0 hit
    ]

-- PrependHitToNotFull
unfoldable pub prepend_hit_to_not_full : PostingListUsed → Hit → ℕ → Code × PostingListUsed
unfolding get_term_frequency_byte_size prepend_uncompressed_at move_to_special
prepend_hit_to_not_full pl hit start =
    let cur_value = read_word pl.posting_list_buffer start in
    let delta_buf = encode (cur_value - hit.value) in
    let delta_len = length delta_buf in
    let hit_term_frequency_bytes = get_term_frequency_byte_size hit in
    let offset = start + value_size in
    let with_delta = put pl (offset - delta_len) delta_buf in
    if ltb pl.size_in_bytes (start + value_size)
    then (failed_precondition, pl)
    else if leb cur_value hit.value
    then (invalid_argument, pl)
    else if leb (special_hits_size + value_size + delta_len + hit_term_frequency_bytes) offset
    then (ok, prepend_uncompressed_at with_delta hit (offset - delta_len))
    else if leb (special_hits_size + delta_len) offset
    then (
      ok,
      start_at
          (set_special_hit (pad_to_end with_delta special_hits_size (offset - delta_len)) 1 hit)
          hit_size,
    )
    else (ok, move_to_special pl hit cur_value offset)

-- PrependHit
unfoldable pub prepend_hit : PostingListUsed → Hit → Code × PostingListUsed
unfolding prepend_hit_to_almost_full prepend_hit_to_empty prepend_hit_to_not_full
prepend_hit pl hit =
    if not (is_valid hit)
    then (invalid_argument, pl)
    else if not (is_posting_list_valid pl)
    then (failed_precondition, pl)
    else if full pl
    then (resource_exhausted, pl)
    else if almost_full pl
    then prepend_hit_to_almost_full pl hit
    else if empty pl
    then (ok, prepend_hit_to_empty pl hit)
    else prepend_hit_to_not_full pl hit (get_start_byte_offset pl)
