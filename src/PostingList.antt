-- ===== src/PostingList.antt =====
-- icing/index/main/posting-list-used.{h,cc}: a posting list, which is the hits of a term in a byte
-- buffer, the newest first. This file has the sizes of icing/index/main/posting-list-utils.{h,cc}
-- and what the operations return; a byte is a number below 256.
pub mod Buffer
pub mod VarInt
pub mod Used
pub mod Read
pub mod Prepend
pub mod Move
pub mod Layout
pub mod Reading
pub mod Contents
pub mod States
pub mod GetHits
pub mod Edits
pub mod PrependHit
pub mod Sizes
pub mod Filling
use external_icing.Base.{
  ℕ, zero, suc, ◌-◌, ◌/◌, ◌*◌, ◌%◌, Bool, true, false, not, ltb, leb, ◌==◌, if◌then◌else◌,
}

-- sizeof(Hit), sizeof(Hit::Value), sizeof(Hit::TermFrequency)
abbrev pub hit_size : ℕ
hit_size = 5

abbrev pub value_size : ℕ
value_size = 4

abbrev pub term_frequency_size : ℕ
term_frequency_size = 1

-- kNumSpecialHits, kSpecialHitsSize
abbrev pub num_special_hits : ℕ
num_special_hits = 2

abbrev pub special_hits_size : ℕ
special_hits_size = hit_size * num_special_hits

-- The statuses of the operations.
pub data Code : Type 0 where
  ok invalid_argument failed_precondition resource_exhausted internal aborted : Code

-- `32 - __builtin_clz(n)`: the number of digits up to the highest one.
unfoldable pub bit_width : ℕ → ℕ → ℕ
bit_width zero n = 0
bit_width (suc fuel) n = if n == 0 then 0 else suc (bit_width fuel (n / 2))

-- BitsToStore
unfoldable pub bits_to_store : ℕ → ℕ
unfolding bit_width
bits_to_store n = if leb n 1 then 0 else bit_width 32 (n - 1)

-- IsValidPostingListSize
unfoldable pub is_valid_posting_list_size : ℕ → Bool
unfolding bits_to_store
is_valid_posting_list_size size_in_bytes =
    if not (size_in_bytes % hit_size == 0)
    then false
    else if ltb size_in_bytes special_hits_size
    then false
    else if ltb (value_size * 8) (bits_to_store size_in_bytes)
    then false
    else true
