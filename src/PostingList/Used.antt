-- ===== src/PostingList/Used.antt =====
-- The state of PostingListUsed: the two special hits and the start of the hits.
use external_icing.Base.{
  ℕ, ◌+◌, ◌-◌, ◌*◌, ◌%◌, ◌^◌, Bool, true, false, not, ◌&&◌, ◌||◌, List, Option, none, some, ltb,
  leb, ◌==◌, if◌then◌else◌, replicate,
}
use external_icing.Hit.{Hit, invalid_value, default_term_frequency, is_valid}
use external_icing.PostingList.{
  hit_size, num_special_hits, special_hits_size, is_valid_posting_list_size,
}
use external_icing.PostingList.Buffer.{write, hit_bytes, read_hit}

pub record PostingListUsed : Type 0 where
  pub posting_list_buffer : List ℕ
  pub size_in_bytes : ℕ

-- The constructor `Hit(value)`, and the default one.
abbrev pub hit_of : ℕ → Hit
hit_of value = record { value = value; term_frequency = default_term_frequency }

abbrev pub invalid_hit : Hit
invalid_hit = hit_of invalid_value

-- The body of get_special_hit, for an index in range.
unfoldable pub special_hit : PostingListUsed → ℕ → Hit
special_hit pl index = read_hit pl.posting_list_buffer (index * hit_size)

-- get_special_hit
unfoldable pub get_special_hit : PostingListUsed → ℕ → Option Hit
unfolding special_hit
get_special_hit pl index = if leb num_special_hits index then none else some (special_hit pl index)

-- memcpy into the posting list's buffer.
unfoldable pub put : PostingListUsed → ℕ → List ℕ → PostingListUsed
put pl offset bytes = record pl { posting_list_buffer = write pl.posting_list_buffer offset bytes }

-- set_special_hit
unfoldable pub set_special_hit : PostingListUsed → ℕ → Hit → PostingListUsed
unfolding put
set_special_hit pl index hit =
    if leb num_special_hits index then pl else put pl (index * hit_size) (hit_bytes hit)

unfoldable pub full : PostingListUsed → Bool
unfolding special_hit
full pl = is_valid (special_hit pl 0) && is_valid (special_hit pl 1)

unfoldable pub almost_full : PostingListUsed → Bool
unfolding special_hit
almost_full pl = not (is_valid (special_hit pl 0))

unfoldable pub empty : PostingListUsed → Bool
unfolding special_hit
empty pl = (special_hit pl 0).value == pl.size_in_bytes && not (is_valid (special_hit pl 1))

-- IsPostingListValid
unfoldable pub is_posting_list_valid : PostingListUsed → Bool
unfolding full almost_full special_hit
is_posting_list_valid pl =
    if almost_full pl
    then is_valid (special_hit pl 1)
    else if full pl
    then true
    else not (
        ltb pl.size_in_bytes (special_hit pl 0).value
        || ltb (special_hit pl 0).value special_hits_size)

unfoldable pub get_start_byte_offset : PostingListUsed → ℕ
unfolding full almost_full special_hit
get_start_byte_offset pl =
    if full pl then 0 else if almost_full pl then hit_size else (special_hit pl 0).value

-- set_start_byte_offset: whether the offset is allowed, and the list afterwards.
unfoldable pub set_start_byte_offset : PostingListUsed → ℕ → Bool × PostingListUsed
unfolding set_special_hit
set_start_byte_offset pl offset =
    if ltb pl.size_in_bytes offset
    then (false, pl)
    else if ltb offset special_hits_size && ltb hit_size offset
    then (false, pl)
    else if ltb offset hit_size && not (offset == 0)
    then (false, pl)
    else if leb special_hits_size offset
    then (true, set_special_hit (set_special_hit pl 0 (hit_of offset)) 1 invalid_hit)
    else if offset == hit_size
    then (true, set_special_hit pl 0 invalid_hit)
    else (true, pl)

-- A call of it whose result is ignored.
abbrev pub start_at : PostingListUsed → ℕ → PostingListUsed
start_at pl offset = (set_start_byte_offset pl offset).1

-- Clear
unfoldable pub clear : PostingListUsed → PostingListUsed
unfolding set_start_byte_offset
clear pl = start_at pl pl.size_in_bytes

-- CreateFromPreexistingPostingListUsedRegion, on a buffer that is not null.
unfoldable pub create_from_preexisting : List ℕ → ℕ → Option PostingListUsed
create_from_preexisting buffer size_in_bytes =
    if is_valid_posting_list_size size_in_bytes
    then some (record { posting_list_buffer = buffer; size_in_bytes = size_in_bytes })
    else none

-- CreateFromUnitializedRegion
unfoldable pub create_from_uninitialized : List ℕ → ℕ → Option PostingListUsed
unfolding create_from_preexisting clear
create_from_uninitialized buffer size_in_bytes =
    elim (create_from_preexisting buffer size_in_bytes) [ none ↦ none | some pl ↦ some (clear pl) ]

-- BytesUsed, in `uint32_t`
unfoldable pub bytes_used : PostingListUsed → ℕ
unfolding get_start_byte_offset
bytes_used pl = (pl.size_in_bytes + (2 ^ 32 - get_start_byte_offset pl)) % 2 ^ 32

-- MinPostingListSizeToFit
unfoldable pub min_posting_list_size_to_fit : PostingListUsed → ℕ
unfolding full almost_full bytes_used
min_posting_list_size_to_fit pl =
    if full pl || almost_full pl then pl.size_in_bytes else (bytes_used pl + hit_size) % 2 ^ 32

-- PadToEnd, for an end within the list.
unfoldable pub pad_to_end : PostingListUsed → ℕ → ℕ → PostingListUsed
unfolding put
pad_to_end pl start end =
    if ltb pl.size_in_bytes end then pl else put pl start (replicate (end - start) 0)
