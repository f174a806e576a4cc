-- ===== src/PostingList/Edits.antt =====
-- What writing does to a buffer that starts with two special hits: the edits of
-- icing/index/main/posting-list-used.cc.
use external_icing.Base.{
  ℕ, zero, suc, ◌+◌, ◌-◌, ◌≤◌, ◌≡◌, refl, sym, ap, ap₂, ◌∙◌, true, false, List, [], ◌∷◌, ◌++◌,
  arith, ltb, leb, length, length-append, take, drop, replicate,
}
use external_icing.Hit.{Hit}
use external_icing.PostingList.{special_hits_size, hit_size}
use external_icing.PostingList.Buffer.{write, hit_bytes}
use external_icing.PostingList.Used.{
  PostingListUsed, hit_of, invalid_hit, put, set_special_hit, set_start_byte_offset, start_at,
}
use external_icing.PostingList.Layout.{specials, write-middle}

abbrev pub with_buffer : PostingListUsed → List ℕ → PostingListUsed
with_buffer pl buffer = record pl { posting_list_buffer = buffer }

module _ (pl : PostingListUsed) (first second hit : Hit) (tail : List ℕ)
    (buffer : pl.posting_list_buffer ≡ specials first second tail) where
  pub set_special_hit-0 : set_special_hit pl 0 hit ≡ with_buffer pl (specials hit second tail)
  unfolding set_special_hit put
  set_special_hit-0 = ap (λ (b : List ℕ). with_buffer pl (write b 0 (hit_bytes hit))) buffer

  pub set_special_hit-1 : set_special_hit pl 1 hit ≡ with_buffer pl (specials first hit tail)
  unfolding set_special_hit put
  set_special_hit-1 = ap (λ (b : List ℕ). with_buffer pl (write b 5 (hit_bytes hit))) buffer

  pub start_at-hit_size :
      special_hits_size ≤ pl.size_in_bytes
      → start_at pl hit_size ≡ with_buffer pl (specials invalid_hit second tail)
  unfolding set_start_byte_offset set_special_hit put
  start_at-hit_size h =
      let fits : ltb pl.size_in_bytes hit_size ≡ false = ground arith in
      rw (start_at, fits)
        (ap (λ (b : List ℕ). with_buffer pl (write b 0 (hit_bytes invalid_hit))) buffer)

  pub start_at-not_full :
      (offset : ℕ)
      → special_hits_size ≤ offset
      → offset ≤ pl.size_in_bytes
      → start_at pl offset ≡ with_buffer pl (specials (hit_of offset) invalid_hit tail)
  unfolding set_start_byte_offset set_special_hit put
  start_at-not_full offset h k =
      let fits : ltb pl.size_in_bytes offset ≡ false = ground arith in
      let above : ltb offset special_hits_size ≡ false = ground arith in
      let above' : ltb offset hit_size ≡ false = ground arith in
      let in_area : leb special_hits_size offset ≡ true = ground arith in
      rw (start_at, fits, above, above', in_area)
        (ap
          (λ (b : List ℕ).
            with_buffer pl
              (write (write b 0 (hit_bytes (hit_of offset))) 5 (hit_bytes invalid_hit)))
          buffer)

pub append_assoc : (xs ys zs : List ℕ) → (xs ++ ys) ++ zs ≡ xs ++ (ys ++ zs)
append_assoc [] ys zs = refl
append_assoc (x ∷ xs) ys zs = ap (◌∷◌ x) (append_assoc xs ys zs)

-- Writing in the area behind the special hits.
pub put-area :
    (pl : PostingListUsed) (first second : Hit) (front old back bytes : List ℕ) (offset : ℕ)
    → pl.posting_list_buffer ≡ specials first second (front ++ (old ++ back))
    → offset ≡ special_hits_size + length front
    → length old ≡ length bytes
    → put pl offset bytes ≡ with_buffer pl (specials first second (front ++ (bytes ++ back)))
unfolding put
put-area pl first second front old back bytes offset buffer at size =
    let place : offset ≡ length (specials first second front) = omega (arith, at) in
    ap₂ (λ (b : List ℕ) (k : ℕ). with_buffer pl (write b k bytes)) buffer place
    ∙ ap (with_buffer pl) (write-middle (specials first second front) old back bytes size)

-- A list of a given length splits at any place.
pub split_at :
    (n : ℕ) (xs : List ℕ)
    → n ≤ length xs
    → (xs ≡ take n xs ++ drop n xs)
      × (length (take n xs) ≡ n)
      × (length (drop n xs) ≡ length xs - n)
split_at zero xs h = (refl, refl, omega arith)
split_at (suc n) [] h = absurd (omega arith)
split_at (suc n) (x ∷ xs) h =
    let rest = split_at n xs (omega arith) in
    (ap (◌∷◌ x) rest.0, ap suc rest.1, omega (arith, rest.2))

pub replicate-add :
    (m n : ℕ) (xs : List ℕ) → replicate (m + n) 0 ++ xs ≡ replicate m 0 ++ (replicate n 0 ++ xs)
replicate-add zero n xs = ap (λ (k : ℕ). replicate k 0 ++ xs) (omega arith)
replicate-add (suc m) n xs =
    let sum : suc m + n ≡ suc (m + n) = omega arith in
    ap (λ (k : ℕ). replicate k 0 ++ xs) sum ∙ ap (◌∷◌ 0) (replicate-add m n xs)

-- Writing twice, the second time right behind the first.
pub put-put :
    (pl : PostingListUsed) (first second : Hit) (front old old' back bytes bytes' : List ℕ)
    (offset : ℕ)
    → pl.posting_list_buffer ≡ specials first second (front ++ (old ++ (old' ++ back)))
    → offset ≡ special_hits_size + length front
    → length old ≡ length bytes
    → length old' ≡ length bytes'
    → put (put pl offset bytes) (offset + length bytes) bytes'
      ≡ with_buffer pl (specials first second (front ++ (bytes ++ (bytes' ++ back))))
put-put pl first second front old old' back bytes bytes' offset buffer at size size' =
    let behind = offset + length bytes in
    let written = specials first second (front ++ (bytes ++ (old' ++ back))) in
    ap (λ (p : PostingListUsed). put p behind bytes')
      (put-area pl first second front old (old' ++ back) bytes offset buffer at size)
    ∙ put-area (with_buffer pl written) first second (front ++ bytes) old' back bytes' behind
        (ap (specials first second) (sym (append_assoc front bytes (old' ++ back))))
        (omega (arith, at, length-append front bytes)) size'
    ∙ ap (λ (xs : List ℕ). with_buffer pl (specials first second xs))
        (append_assoc front bytes (bytes' ++ back))
