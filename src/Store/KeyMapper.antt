-- ===== src/Store/KeyMapper.antt =====
-- icing/store/key-mapper.h: numbers by key, in a trie. Whether the trie of
-- icing/legacy/index/icing-dynamic-trie.cc has room for a key is a parameter; keys have no zero byte, at
-- which `c_str` would end them.
use external_icing.Base.{
  ℕ, ◌≡◌, refl, Bool, List, [], ◌∷◌, Option, none, some, arith, if◌then◌else◌, length,
}
use external_icing.Store.{StatusOr, value, error, not_found, internal, Text, text_eq, text_eq_iff}

abbrev pub KeyMapper : Type 0
KeyMapper = List (Text × ℕ)

-- `trie_.Find`
abbrev pub find : KeyMapper → Text → Option ℕ
find [] key = none
find ((k, v) ∷ rest) key = if text_eq k key then some v else find rest key

-- `trie_.Insert` of a key that there is room for, and that is replaced.
abbrev pub insert : KeyMapper → Text → ℕ → KeyMapper
insert [] key v = (key, v) ∷ []
insert ((k, w) ∷ rest) key v = if text_eq k key then (k, v) ∷ rest else ((k, w) ∷ insert rest key v)

abbrev pub or_not_found : Option ℕ → StatusOr ℕ
or_not_found none = error not_found
or_not_found (some v) = value v

-- Get
unfoldable pub mapper_get : KeyMapper → Text → StatusOr ℕ
mapper_get mapper key = or_not_found (find mapper key)

-- num_keys
abbrev pub num_keys : KeyMapper → ℕ
num_keys mapper = length mapper

module _ (has_room : KeyMapper → Text → Bool) where
  -- Put
  unfoldable pub mapper_put : KeyMapper → Text → ℕ → StatusOr KeyMapper
  mapper_put mapper key v =
      if has_room mapper key then value (insert mapper key v) else error internal

  -- GetOrPut: the value, and the mapper afterwards
  unfoldable pub get_or_put : KeyMapper → Text → ℕ → StatusOr (ℕ × KeyMapper)
  get_or_put mapper key next_value = elim (find mapper key) [
    | some v ↦ value (v, mapper)
    | none ↦
        if has_room mapper key
        then value (next_value, insert mapper key next_value)
        else error internal
  ]

pub find-insert :
    (mapper : KeyMapper) (key key' : Text) (v : ℕ)
    → find (insert mapper key v) key' ≡ (if text_eq key key' then some v else find mapper key')
find-insert [] key key' v = refl
find-insert ((k, w) ∷ rest) key key' v = ground (
  arith,
  text_eq_iff k key,
  text_eq_iff k key',
  text_eq_iff key key',
  find-insert rest key key' v,
)
