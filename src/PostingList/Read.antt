-- ===== src/PostingList/Read.antt =====
-- Reading and popping hits: GetPadEnd, ConsumeTermFrequencyIfPresent, GetHitsInternal.
use external_icing.Base.{
  ℕ, zero, suc, ◌+◌, ◌-◌, ◌/◌, ◌%◌, ◌^◌, Bool, true, false, not, ◌&&◌, List, [], ◌∷◌, ◌++◌, Option,
  none, some, ltb, leb, ◌==◌, if◌then◌else◌, drop, get_or,
}
use external_icing.Hit.{Hit, invalid_value, has_term_frequency}
use external_icing.PostingList.{
  hit_size, value_size, term_frequency_size, special_hits_size, Code, ok, internal,
}
use external_icing.PostingList.Buffer.{read_word, word_bytes}
use external_icing.PostingList.VarInt.{decode}
use external_icing.PostingList.Used.{
  PostingListUsed, hit_of, special_hit, set_special_hit, put, pad_to_end, start_at,
  get_start_byte_offset,
}

-- VarInt::Decode at an offset of the buffer.
abbrev pub decode_at : ℕ → PostingListUsed → ℕ → ℕ × ℕ
decode_at width pl offset = decode width (drop offset pl.posting_list_buffer)

-- The loop of GetPadEnd. Each round passes over a byte at least.
unfoldable pub get_pad_end_loop : ℕ → PostingListUsed → ℕ → ℕ
get_pad_end_loop zero pl pad_end = pad_end
get_pad_end_loop (suc fuel) pl pad_end =
    let (pad, pad_len) = decode_at 32 pl pad_end in
    let rest = get_pad_end_loop fuel pl (pad_end + pad_len) in
    if not (ltb pad_end pl.size_in_bytes) then pad_end else if pad == 0 then rest else pad_end

-- GetPadEnd
unfoldable pub get_pad_end : PostingListUsed → ℕ → ℕ
unfolding get_pad_end_loop
get_pad_end pl offset = get_pad_end_loop pl.size_in_bytes pl offset

-- ConsumeTermFrequencyIfPresent: the hit and the offset afterwards, or none for an error.
unfoldable pub consume_term_frequency_if_present : PostingListUsed → Hit → ℕ → Option (Hit × ℕ)
consume_term_frequency_if_present pl hit offset =
    if not (has_term_frequency hit)
    then some (hit, offset)
    else if ltb pl.size_in_bytes (offset + term_frequency_size)
    then none
    else some (
      record { value = hit.value; term_frequency = get_or pl.posting_list_buffer offset 0 },
      offset + term_frequency_size,
    )

-- Where a traversal stands: how many hits it may still take, the offset, and the last value.
pub record Cursor : Type 0 where
  pub left : ℕ
  pub offset : ℕ
  pub val : ℕ

-- The first loop of GetHitsInternal, over the special hits: at most two rounds.
unfoldable pub take_special : ℕ → PostingListUsed → Cursor → List Hit × Cursor
take_special zero pl c = ([], c)
take_special (suc fuel) pl c =
    let hit = special_hit pl (c.offset / hit_size) in
    let (hits, end) =
      take_special fuel pl
        (record { left = c.left - 1; offset = c.offset + hit_size; val = hit.value }) in
    if ltb 0 c.left && ltb c.offset special_hits_size then (hit ∷ hits, end) else ([], c)

-- The test between the loops.
unfoldable pub skip_pad : PostingListUsed → Cursor → Cursor
unfolding get_pad_end
skip_pad pl c =
    if not (c.val == invalid_value) && (c.offset == special_hits_size)
    then record c { offset = get_pad_end pl c.offset }
    else c

-- The value of the next hit in the compressed area, and the offset behind it.
unfoldable pub next_value : PostingListUsed → Cursor → ℕ × ℕ
next_value pl c =
    let (delta, delta_len) = decode_at 64 pl c.offset in
    if c.val == invalid_value
    then (read_word pl.posting_list_buffer c.offset, c.offset + value_size)
    else ((c.val + delta) % 2 ^ 32, c.offset + delta_len)

-- The second loop, over the compressed area: none if the list is corrupted. Each round passes over
-- a byte at least.
unfoldable pub take_compressed : ℕ → PostingListUsed → Cursor → Option (List Hit × Cursor)
unfolding next_value consume_term_frequency_if_present
take_compressed zero pl c = some ([], c)
take_compressed (suc fuel) pl c =
    let (val, offset) = next_value pl c in
    let taken = consume_term_frequency_if_present pl (hit_of val) offset in
    let rest = λ (behind : ℕ).
      take_compressed fuel pl (record { left = c.left - 1; offset = behind; val = val }) in
    if not (ltb 0 c.left && ltb c.offset pl.size_in_bytes) then some ([], c) else elim taken [
      | none ↦ none
      | some (hit, behind) ↦ elim (rest behind) [
        | none ↦ none
        | some (hits, end) ↦ some (hit ∷ hits, end)
      ]
    ]

-- The part of GetHitsInternal that pops the hits traversed; none is an internal error.
unfoldable pub pop_traversed : PostingListUsed → Cursor → Option PostingListUsed
unfolding consume_term_frequency_if_present
pop_traversed pl c =
    let (delta, delta_len) = decode_at 64 pl c.offset in
    let offset = c.offset + delta_len in
    let val = (c.val + delta) % 2 ^ 32 in
    if leb special_hits_size c.offset && ltb c.offset pl.size_in_bytes
    then (if leb (special_hits_size + value_size) offset
        then some (start_at (put pl (offset - value_size) (word_bytes val)) (offset - value_size))
        else elim (consume_term_frequency_if_present pl (hit_of val) offset) [
          | none ↦ none
          | some (hit, behind) ↦
              some
                (start_at (pad_to_end (set_special_hit pl 1 hit) special_hits_size behind) hit_size)
        ])
    else some (start_at pl c.offset)

-- GetHitsInternal: the status, the hits put out, and the list afterwards.
unfoldable pub get_hits_internal : PostingListUsed → ℕ → Bool → Code × List Hit × PostingListUsed
unfolding take_special skip_pad take_compressed pop_traversed get_start_byte_offset
get_hits_internal pl limit pop =
    let start : Cursor = record {
      left = limit;
      offset = get_start_byte_offset pl;
      val = invalid_value;
    } in
    let (specials, c) = take_special 2 pl start in
    elim (take_compressed pl.size_in_bytes pl (skip_pad pl c)) [
      | none ↦ (internal, [], pl)
      | some (hits, end) ↦ elim pop [
        | false ↦ (ok, specials ++ hits, pl)
        | true ↦ elim (pop_traversed pl end) [
          | none ↦ (internal, [], pl)
          | some popped ↦ (ok, specials ++ hits, popped)
        ]
      ]
    ]

-- GetHits
unfoldable pub get_hits : PostingListUsed → Code × List Hit
unfolding get_hits_internal
get_hits pl = let (code, hits, same) = get_hits_internal pl (2 ^ 32 - 1) false in (code, hits)
