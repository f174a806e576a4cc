-- ===== src/Tests/PostingLists.antt =====
-- Posting lists at concrete inputs.
use external_icing.Base.{
  List, ℕ, ◌≡◌, refl, false, true, ◌⊎◌, take, [], ◌∷◌, ◌++◌, replicate, length, arith,
}
use external_icing.Hit
use external_icing.Hit.{Hit, hit}
use external_icing.Hit.Bitfield.{bitfield_get, bitfield_set}
use external_icing.PostingList.{ok, resource_exhausted}
use external_icing.PostingList.VarInt.{encode, decode}
use external_icing.PostingList.Used.{
  PostingListUsed, hit_of, invalid_hit, min_posting_list_size_to_fit, bytes_used,
  is_posting_list_valid, empty, clear, full, almost_full,
}
use external_icing.PostingList.VarInt.RoundTrip.{decode-encode}
use external_icing.PostingList.Read.{get_hits, get_hits_internal}
use external_icing.PostingList.Layout.{Layout, Ordered, not_full_layout, area, specials}
use external_icing.PostingList.GetHits.{get_hits_lem}
use external_icing.PostingList.Prepend.{prepend_hit}
use external_icing.PostingList.PrependHit.AnyState.{prepend_hit_lem}
use external_icing.PostingList.Move.{move_from, pop_front_hits, prepend_hit_array_loop}
use external_icing.PostingList.Filling.{in_front, get_hits-prepend_hit_array_loop}

abbrev blank : ℕ → PostingListUsed
blank size = clear (record { posting_list_buffer = replicate size 7; size_in_bytes = size })

abbrev hit_at : ℕ → ℕ → Hit
hit_at document_id frequency = hit 3 document_id frequency false false

abbrev filled : PostingListUsed
filled =
    (prepend_hit (prepend_hit (prepend_hit (blank 20) (hit_at 100 1)).1 (hit_at 101 9)).1
      (hit_at 102 1)).1

-- Three hits of falling value are read back, the last one first.
filled_run : get_hits filled ≡ (ok, hit_at 102 1 ∷ hit_at 101 9 ∷ hit_at 100 1 ∷ [])
unfolding get_hits prepend_hit clear hit Hit.is_valid Hit.hit_value bitfield_set
    is_posting_list_valid empty Hit.has_term_frequency bitfield_get encode decode
filled_run = refl

-- Popping a hit takes away the last one.
pop_run : get_hits (pop_front_hits filled 1).1 ≡ (ok, hit_at 101 9 ∷ hit_at 100 1 ∷ [])
unfolding get_hits prepend_hit clear hit pop_front_hits get_hits_internal Hit.is_valid Hit.hit_value
    bitfield_set is_posting_list_valid empty Hit.has_term_frequency bitfield_get encode decode
pop_run = refl

-- Moving the hits to another list of the size keeps them.
move_run :
    (get_hits (move_from (blank 20) filled).1
      ≡ (ok, hit_at 102 1 ∷ hit_at 101 9 ∷ hit_at 100 1 ∷ []))
    × (get_hits (move_from (blank 20) filled).2 ≡ (ok, []))
unfolding get_hits prepend_hit clear hit move_from get_hits_internal min_posting_list_size_to_fit
    bytes_used full almost_full Hit.is_valid Hit.hit_value bitfield_set is_posting_list_valid empty
    Hit.has_term_frequency bitfield_get encode decode
move_run = (refl, refl)

decode-encode_example : decode 64 (encode 300 ++ (7 ∷ [])) ≡ (300, length (encode 300))
decode-encode_example = decode-encode 300 (7 ∷ []) (omega arith)

abbrev stored : List Hit
stored = hit_of 1000 ∷ hit_of 1304 ∷ []

abbrev some_bytes : List ℕ
some_bytes = 1 ∷ 2 ∷ 3 ∷ 4 ∷ []

abbrev laid_out : PostingListUsed
laid_out = record {
  posting_list_buffer = specials (hit_of 14) invalid_hit (some_bytes ++ area stored);
  size_in_bytes = 20;
}

laid_out-Layout : Layout laid_out stored
unfolding encode Hit.has_term_frequency bitfield_get
laid_out-Layout = not_full_layout some_bytes stored refl refl (omega arith) (
  record { valid = omega arith; frequency = λ e. refl },
  (omega arith, record { valid = omega arith; frequency = λ e. refl }, tt),
)

get_hits_lem_example : get_hits laid_out ≡ (ok, stored)
get_hits_lem_example = get_hits_lem laid_out stored laid_out-Layout

laid_out-Ordered : Ordered (hit_of 400 ∷ stored)
unfolding Hit.has_term_frequency bitfield_get
laid_out-Ordered = (
  record { valid = omega arith; frequency = λ e. refl },
  (
    omega arith,
    record { valid = omega arith; frequency = λ e. refl },
    (omega arith, record { valid = omega arith; frequency = λ e. refl }, tt),
  ),
)

laid_out-full : full laid_out ≡ false
unfolding full Hit.is_valid
laid_out-full = refl

prepend_hit_lem_example :
    ((full laid_out ≡ true) × (prepend_hit laid_out (hit_of 400) ≡ (resource_exhausted, laid_out)))
    ⊎ ((full laid_out ≡ false)
        × ((prepend_hit laid_out (hit_of 400)).0 ≡ ok)
        × Layout (prepend_hit laid_out (hit_of 400)).1 (hit_of 400 ∷ stored))
prepend_hit_lem_example =
    prepend_hit_lem laid_out (hit_of 400) stored laid_out-Layout laid_out-Ordered refl

abbrev garbage : PostingListUsed
garbage = record { posting_list_buffer = replicate 20 7; size_in_bytes = 20 }

abbrev falling : List Hit
falling = hit_of 1304 ∷ hit_of 1000 ∷ hit_of 400 ∷ []

get_hits-prepend_hit_array_loop_example :
    get_hits (prepend_hit_array_loop (clear garbage) falling).1
    ≡ (ok, in_front (take (prepend_hit_array_loop (clear garbage) falling).0 falling) [])
get_hits-prepend_hit_array_loop_example =
    get_hits-prepend_hit_array_loop garbage falling refl (omega arith) (omega arith) refl
      laid_out-Ordered
