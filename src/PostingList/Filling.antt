-- ===== src/PostingList/Filling.antt =====
-- Filling a posting list of icing/index/main/posting-list-used.cc: Clear, and the loop of
-- PrependHitArray.
use external_icing.Base.{
  ℕ, suc, ◌+◌, ◌-◌, ◌%◌, ◌≤◌, ◌<◌, ◌≡◌, refl, sym, ap, ◌∙◌, subst, true, false, List, [], ◌∷◌, ◌++◌,
  arith, ltb, leb, length, take, drop, inl, inr, ◌⊎◌,
}
use external_icing.Hit.{Hit, invalid_value}
use external_icing.PostingList.{Code, ok, resource_exhausted, special_hits_size, hit_size}
use external_icing.PostingList.Used.{
  PostingListUsed, hit_of, invalid_hit, full, set_start_byte_offset, set_special_hit, put, start_at,
  clear,
}
use external_icing.PostingList.Prepend.{prepend_hit}
use external_icing.PostingList.Read.{get_hits}
use external_icing.PostingList.GetHits.{get_hits_lem}
use external_icing.PostingList.Layout.{Layout, Ordered, Rising, specials, not_full_layout}
use external_icing.PostingList.Edits.{with_buffer, split_at}
use external_icing.PostingList.Move.{prepend_hit_array_loop}
use external_icing.PostingList.Sizes.{size-prepend_hit, size-clear}
use external_icing.PostingList.PrependHit.AnyState.{prepend_hit_lem}

-- The hits in front of others, the last one first.
abbrev pub in_front : List Hit → List Hit → List Hit
in_front [] hits = hits
in_front (hit ∷ new) hits = in_front new (hit ∷ hits)

Rising-Ordered : (v : ℕ) (hits : List Hit) → Rising v hits → Ordered hits
Rising-Ordered v [] rising = tt
Rising-Ordered v (hit ∷ hits) rising = (rising.1, rising.2)

Ordered-in_front : (new hits : List Hit) → Ordered (in_front new hits) → Ordered hits
Ordered-in_front [] hits ordered = ordered
Ordered-in_front (hit ∷ new) hits ordered =
    Rising-Ordered hit.value hits (Ordered-in_front new (hit ∷ hits) ordered).1

-- A result of the loop: all hits went in or the list is full, and the list holds those that did.
abbrev pub Filled : List Hit → List Hit → ℕ × PostingListUsed → Type 0
Filled new hits r =
    (r.0 ≤ length new)
    × ((r.0 ≡ length new) ⊎ (full r.1 ≡ true))
    × Layout r.1 (in_front (take r.0 new) hits)

loop_full :
    (pl : PostingListUsed) (hit : Hit) (new : List Hit)
    → prepend_hit pl hit ≡ (resource_exhausted, pl)
    → prepend_hit_array_loop pl (hit ∷ new) ≡ (0, pl)
unfolding prepend_hit_array_loop
loop_full pl hit new unchanged =
    let code = ap (λ (r : Code × PostingListUsed). r.0) unchanged in
    rw (prepend_hit_array_loop, code) (ap (λ (r : Code × PostingListUsed). (0, r.1)) unchanged)

loop_ok :
    (pl : PostingListUsed) (hit : Hit) (new : List Hit)
    → (prepend_hit pl hit).0 ≡ ok
    → prepend_hit_array_loop pl (hit ∷ new) ≡ (
      suc (prepend_hit_array_loop (prepend_hit pl hit).1 new).0,
      (prepend_hit_array_loop (prepend_hit pl hit).1 new).1,
    )
unfolding prepend_hit_array_loop
loop_ok pl hit new done = rw (prepend_hit_array_loop, done) refl

all_or_full :
    (n m : ℕ) (pl : PostingListUsed)
    → (n ≡ m) ⊎ (full pl ≡ true)
    → (suc n ≡ suc m) ⊎ (full pl ≡ true)
all_or_full n m pl (inl all) = inl (ap suc all)
all_or_full n m pl (inr is_full) = inr is_full

-- The loop of PrependHitArray, for hits that are ordered in front of those of a list whose size is a
-- multiple of a hit's: it stops early only when the list is full, and the list then holds as many of
-- the hits as it says, in front of those that it had.
pub prepend_hit_array_loop_lem :
    (pl : PostingListUsed) (new hits : List Hit)
    → Layout pl hits
    → Ordered (in_front new hits)
    → pl.size_in_bytes % hit_size ≡ 0
    → Filled new hits (prepend_hit_array_loop pl new)
unfolding prepend_hit_array_loop
prepend_hit_array_loop_lem pl [] hits laid_out ordered multiple = (omega arith, inl refl, laid_out)
prepend_hit_array_loop_lem pl (hit ∷ new) hits laid_out ordered multiple =
    elim (prepend_hit_lem pl hit hits laid_out (Ordered-in_front new (hit ∷ hits) ordered)
      multiple) [
        | inl (is_full, unchanged) ↦
            subst (Filled (hit ∷ new) hits) (sym (loop_full pl hit new unchanged))
              (omega arith, inr is_full, laid_out)
        | inr (_, done, added) ↦
            let pl' = (prepend_hit pl hit).1 in
            let r = prepend_hit_array_loop pl' new in
            let rest =
              prepend_hit_array_loop_lem pl' new (hit ∷ hits) added ordered
                (ap (λ (n : ℕ). n % hit_size) (size-prepend_hit pl hit) ∙ multiple) in
            subst (Filled (hit ∷ new) hits) (sym (loop_ok pl hit new done))
              (omega (arith, rest.0), all_or_full r.0 (length new) r.1 rest.1, rest.2)
      ]

append_nil : (xs : List ℕ) → xs ++ [] ≡ xs
append_nil [] = refl
append_nil (x ∷ xs) = ap (◌∷◌ x) (append_nil xs)

length-drop : (n : ℕ) (xs : List ℕ) → n ≤ length xs → length (drop n xs) ≡ length xs - n
length-drop n xs h = (split_at n xs h).2

-- A cleared list, whatever was in its buffer of the size that it says, has no hits, if it fits
-- two hits and the size is below the invalid value.
pub clear-Layout :
    (pl : PostingListUsed)
    → length pl.posting_list_buffer ≡ pl.size_in_bytes
    → special_hits_size ≤ pl.size_in_bytes
    → pl.size_in_bytes < invalid_value
    → Layout (clear pl) []
unfolding clear set_start_byte_offset set_special_hit put
clear-Layout pl whole least small =
    let size = pl.size_in_bytes in
    let junk = drop 5 (drop 5 pl.posting_list_buffer) in
    let fits : ltb size size ≡ false = ground arith in
    let above : ltb size special_hits_size ≡ false = ground arith in
    let above' : ltb size hit_size ≡ false = ground arith in
    let in_area : leb special_hits_size size ≡ true = ground arith in
    let cleared : clear pl ≡ with_buffer pl (specials (hit_of size) invalid_hit junk) =
      rw (clear, start_at, fits, above, above', in_area) refl in
    let half = length-drop 5 pl.posting_list_buffer (omega (arith, whole)) in
    let rest = length-drop 5 (drop 5 pl.posting_list_buffer) (omega (arith, whole, half)) in
    let at : size ≡ special_hits_size + length junk = omega (arith, whole, half, rest) in
    subst (λ (p : PostingListUsed). Layout p []) (sym cleared)
      (not_full_layout junk []
        (ap (λ (k : ℕ). specials (hit_of k) invalid_hit junk) at
          ∙ ap (specials (hit_of (special_hits_size + length junk)) invalid_hit)
              (sym (append_nil junk)))
        (omega (arith, at)) small tt)

-- What goes into a cleared list, of a size that is a multiple of a hit's, fits two hits and is below
-- the invalid value, in a buffer of that size, comes out, where the hits are valid and each has a value below the one before: GetHits gives the hits
-- that the loop of PrependHitArray says it has put in, the last one first.
pub get_hits-prepend_hit_array_loop :
    (pl : PostingListUsed) (new : List Hit)
    → length pl.posting_list_buffer ≡ pl.size_in_bytes
    → special_hits_size ≤ pl.size_in_bytes
    → pl.size_in_bytes < invalid_value
    → pl.size_in_bytes % hit_size ≡ 0
    → Ordered (in_front new [])
    → get_hits (prepend_hit_array_loop (clear pl) new).1
      ≡ (ok, in_front (take (prepend_hit_array_loop (clear pl) new).0 new) [])
get_hits-prepend_hit_array_loop pl new whole least small multiple ordered =
    let r = prepend_hit_array_loop (clear pl) new in
    let filled =
      prepend_hit_array_loop_lem (clear pl) new [] (clear-Layout pl whole least small) ordered
        (ap (λ (n : ℕ). n % hit_size) (size-clear pl) ∙ multiple) in
    get_hits_lem r.1 (in_front (take r.0 new) []) filled.2
