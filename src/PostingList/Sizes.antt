-- ===== src/PostingList/Sizes.antt =====
-- The size of a posting list of icing/index/main/posting-list-used.cc, which no writing changes.
use external_icing.Base.{ℕ, ◌≡◌, arith}
use external_icing.Hit.{Hit}
use external_icing.PostingList.Used.{
  PostingListUsed, set_special_hit, set_start_byte_offset, start_at, put, pad_to_end, clear,
  get_start_byte_offset,
}
use external_icing.PostingList.Prepend.{
  prepend_hit_uncompressed, prepend_uncompressed_at, prepend_hit_to_almost_full,
  prepend_hit_to_empty, move_to_special, prepend_hit_to_not_full, prepend_hit,
}

abbrev Same : ℕ → PostingListUsed → Type 0
Same n pl = pl.size_in_bytes ≡ n

size-set_special_hit :
    (pl : PostingListUsed) (index : ℕ) (hit : Hit)
    → (set_special_hit pl index hit).size_in_bytes ≡ pl.size_in_bytes
unfolding set_special_hit put
size-set_special_hit pl index hit = ground arith

size-start_at :
    (pl : PostingListUsed) (offset : ℕ) → (start_at pl offset).size_in_bytes ≡ pl.size_in_bytes
unfolding set_start_byte_offset set_special_hit put
size-start_at pl offset = ground arith

size-pad_to_end :
    (pl : PostingListUsed) (start end : ℕ)
    → (pad_to_end pl start end).size_in_bytes ≡ pl.size_in_bytes
unfolding pad_to_end put
size-pad_to_end pl start end = ground arith

size-prepend_uncompressed_at :
    (pl : PostingListUsed) (hit : Hit) (offset : ℕ)
    → (prepend_uncompressed_at pl hit offset).size_in_bytes ≡ pl.size_in_bytes
unfolding prepend_uncompressed_at prepend_hit_uncompressed set_start_byte_offset set_special_hit put
size-prepend_uncompressed_at pl hit offset = ground arith

size-prepend_hit_to_almost_full :
    (pl : PostingListUsed) (hit : Hit)
    → (prepend_hit_to_almost_full pl hit).1.size_in_bytes ≡ pl.size_in_bytes
unfolding prepend_hit_to_almost_full set_start_byte_offset set_special_hit put
size-prepend_hit_to_almost_full pl hit = ground arith

size-prepend_hit_to_empty :
    (pl : PostingListUsed) (hit : Hit)
    → (prepend_hit_to_empty pl hit).size_in_bytes ≡ pl.size_in_bytes
unfolding prepend_hit_to_empty
size-prepend_hit_to_empty pl hit = ground (
  arith,
  size-prepend_uncompressed_at pl hit pl.size_in_bytes,
  size-start_at (set_special_hit pl 1 hit) 5,
  size-set_special_hit pl 1 hit,
)

size-move_to_special :
    (pl : PostingListUsed) (hit : Hit) (v offset : ℕ)
    → (move_to_special pl hit v offset).size_in_bytes ≡ pl.size_in_bytes
unfolding move_to_special pad_to_end set_special_hit put
size-move_to_special pl hit v offset = ground arith

size-prepend_hit_to_not_full :
    (pl : PostingListUsed) (hit : Hit) (start : ℕ)
    → (prepend_hit_to_not_full pl hit start).1.size_in_bytes ≡ pl.size_in_bytes
unfolding prepend_hit_to_not_full prepend_uncompressed_at prepend_hit_uncompressed move_to_special
    pad_to_end set_start_byte_offset set_special_hit put
size-prepend_hit_to_not_full pl hit start = ground arith

-- Whatever PrependHit does, the list has the size that it had.
pub size-prepend_hit :
    (pl : PostingListUsed) (hit : Hit) → (prepend_hit pl hit).1.size_in_bytes ≡ pl.size_in_bytes
unfolding prepend_hit
size-prepend_hit pl hit = ground (
  arith,
  size-prepend_hit_to_almost_full pl hit,
  size-prepend_hit_to_empty pl hit,
  size-prepend_hit_to_not_full pl hit (get_start_byte_offset pl),
)

pub size-clear : (pl : PostingListUsed) → (clear pl).size_in_bytes ≡ pl.size_in_bytes
unfolding clear
size-clear pl = size-start_at pl pl.size_in_bytes
