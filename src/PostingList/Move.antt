-- ===== src/PostingList/Move.antt =====
-- Taking hits away and moving them: PopFrontHits, PrependHitArray and MoveFrom.
use external_icing.Base.{
  ℕ, zero, suc, ◌-◌, Bool, true, not, ◌&&◌, ◌||◌, List, [], ◌∷◌, ◌++◌, ltb, ◌==◌, if◌then◌else◌,
  drop, take, length,
}
use external_icing.Hit.{Hit}
use external_icing.PostingList.{
  special_hits_size, Code, ok, invalid_argument, failed_precondition, aborted,
}
use external_icing.PostingList.Used.{
  PostingListUsed, put, start_at, full, almost_full, is_posting_list_valid, clear, bytes_used,
  min_posting_list_size_to_fit, get_start_byte_offset,
}
use external_icing.PostingList.Read.{get_hits_internal}
use external_icing.PostingList.Prepend.{prepend_hit}

-- `PrependHit(out[1])`, whose status is ignored.
unfoldable pub put_back_second : List Hit → PostingListUsed → PostingListUsed
put_back_second (first ∷ second ∷ hits) pl = (prepend_hit pl second).1
put_back_second hits pl = pl

-- PopFrontHits
unfoldable pub pop_front_hits : PostingListUsed → ℕ → Code × PostingListUsed
unfolding put_back_second
pop_front_hits pl num_hits =
    let (code, out, popped) = get_hits_internal pl 2 true in
    let (some_code, some_out, some_popped) = get_hits_internal pl num_hits true in
    if (num_hits == 1) && full pl
    then elim code [ ok ↦ (ok, put_back_second out popped) | failed ↦ (failed, popped) ]
    else if ltb 0 num_hits
    then (some_code, some_popped)
    else (ok, pl)

-- The loop of PrependHitArray, over the array from its end: how many hits were prepended.
unfoldable pub prepend_hit_array_loop : PostingListUsed → List Hit → ℕ × PostingListUsed
prepend_hit_array_loop pl [] = (0, pl)
prepend_hit_array_loop pl (hit ∷ hits) =
    let (code, with_hit) = prepend_hit pl hit in
    let (n, end) = prepend_hit_array_loop with_hit hits in
    elim code [ ok ↦ (suc n, end) | _ ↦ (0, with_hit) ]

abbrev pub reverse : List Hit → List Hit
reverse [] = []
reverse (hit ∷ hits) = reverse hits ++ (hit ∷ [])

-- PrependHitArray, on the hits that GetHit makes of the array.
unfoldable pub prepend_hit_array : PostingListUsed → List Hit → Bool → ℕ × PostingListUsed
unfolding prepend_hit_array_loop pop_front_hits
prepend_hit_array pl hits keep_prepended =
    let (i, end) = prepend_hit_array_loop pl (reverse hits) in
    if not (is_posting_list_valid pl)
    then (0, pl)
    else if not (i == length hits) && not keep_prepended
    then (i, (pop_front_hits end i).1)
    else (i, end)

-- The first loop of MoveFrom: the other list after popping, and the hits popped, the first popped
-- first. Each round pops a hit.
unfoldable pub pop_to_fit : ℕ → ℕ → PostingListUsed → List Hit → Code × List Hit × PostingListUsed
pop_to_fit zero size other hits = (ok, hits, other)
pop_to_fit (suc fuel) size other hits =
    let (code, out, popped) = get_hits_internal other 1 true in
    let rest = pop_to_fit fuel size popped (hits ++ out) in
    if full other || almost_full other || ltb (size - special_hits_size) (bytes_used other)
    then elim code [ ok ↦ rest | _ ↦ (aborted, hits ++ out, popped) ]
    else (ok, hits, other)

-- The last loop of MoveFrom, over the popped hits from the last one on.
unfoldable pub put_back : List Hit → PostingListUsed → Code × PostingListUsed
put_back [] pl = (ok, pl)
put_back (hit ∷ hits) pl =
    let (code, with_hit) = prepend_hit pl hit in
    let rest = put_back hits with_hit in elim code [ ok ↦ rest | failed ↦ (failed, with_hit) ]

-- MoveFrom: the status, this list and the other one afterwards.
unfoldable pub move_from :
    PostingListUsed → PostingListUsed → Code × PostingListUsed × PostingListUsed
unfolding pop_to_fit put_back
move_from pl other =
    let (code, hits, fitting) = pop_to_fit other.size_in_bytes pl.size_in_bytes other [] in
    let used = bytes_used fitting in
    let area = take used (drop (get_start_byte_offset fitting) fitting.posting_list_buffer) in
    let copied =
      start_at (put (clear pl) (pl.size_in_bytes - used) area) (pl.size_in_bytes - used) in
    let (put_code, filled) = put_back (reverse hits) copied in
    if ltb pl.size_in_bytes (min_posting_list_size_to_fit other)
    then (invalid_argument, pl, other)
    else if not (is_posting_list_valid pl)
    then (failed_precondition, pl, other)
    else if not (is_posting_list_valid other)
    then (invalid_argument, pl, other)
    else elim code [
      | ok ↦ elim put_code [ ok ↦ (ok, filled, clear fitting) | failed ↦ (failed, filled, fitting) ]
      | failed ↦ (failed, pl, fitting)
    ]
