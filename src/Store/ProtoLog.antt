-- ===== src/Store/ProtoLog.antt =====
-- icing/file/portable-file-backed-proto-log.h: the log of the documents. Protocol buffers and their
-- compression are not part of the repository: the log holds the protos, and how many bytes one
-- takes before and after compression are parameters. A file operation is taken to succeed.
use external_icing.Base.{
  ℕ, ◌+◌, ◌≡◌, arith, List, [], ◌∷◌, Option, none, some, ltb, leb, ◌==◌, if◌then◌else◌,
}
use external_icing.Store.{
  StatusOr, value, error, not_found, invalid_argument, out_of_range, internal,
}

-- kHeaderReservedBytes, and the size of the metadata in front of a proto
abbrev pub header_reserved_bytes : ℕ
header_reserved_bytes = 256

abbrev pub metadata_size : ℕ
metadata_size = 4

-- The protos with their offsets; one that was erased is all zeros.
pub record ProtoLog (P : Type 0) : Type 0 where
  pub protos : List (ℕ × Option P)
  pub file_size : ℕ

abbrev pub proto_at : {P : Type 0} → List (ℕ × Option P) → ℕ → Option (Option P)
proto_at [] file_offset = none
proto_at ((offset, proto) ∷ rest) file_offset =
    if offset == file_offset then some proto else proto_at rest file_offset

abbrev pub erase_at : {P : Type 0} → List (ℕ × Option P) → ℕ → List (ℕ × Option P)
erase_at [] file_offset = []
erase_at ((offset, proto) ∷ rest) file_offset =
    if offset == file_offset
    then (offset, none) ∷ rest
    else ((offset, proto) ∷ erase_at rest file_offset)

module _ {P : Type 0} (byte_size stored_size : P → ℕ) (max_proto_size : ℕ) where
  -- WriteProto: the offset of the proto, and the log afterwards
  unfoldable pub write_proto : ProtoLog P → P → StatusOr (ℕ × ProtoLog P)
  write_proto log proto =
      if ltb max_proto_size (byte_size proto)
      then error invalid_argument
      else if ltb max_proto_size (stored_size proto)
      then error invalid_argument
      else value (
        log.file_size,
        record {
          protos = (log.file_size, some proto) ∷ log.protos;
          file_size = log.file_size + metadata_size + stored_size proto;
        },
      )

-- ReadProto
unfoldable pub read_proto : {P : Type 0} → ProtoLog P → ℕ → StatusOr P
read_proto log file_offset =
    if leb log.file_size file_offset
    then error out_of_range
    else elim (proto_at log.protos file_offset) [
      | none ↦ error internal
      | some none ↦ error not_found
      | some (some proto) ↦ value proto
    ]

-- EraseProto
unfoldable pub erase_proto : {P : Type 0} → ProtoLog P → ℕ → StatusOr (ProtoLog P)
erase_proto log file_offset =
    if leb log.file_size file_offset
    then error out_of_range
    else elim (proto_at log.protos file_offset) [
      | none ↦ error internal
      | some _ ↦ value (record log { protos = erase_at log.protos file_offset })
    ]

-- What is read after a proto was erased.
abbrev pub erased_proto : {P : Type 0} → Option (Option P) → Option (Option P)
erased_proto none = none
erased_proto (some proto) = some none

pub proto_at-erase_at :
    {P : Type 0} (protos : List (ℕ × Option P)) (offset other : ℕ)
    → proto_at (erase_at protos offset) other
      ≡ (if offset == other then erased_proto (proto_at protos offset) else proto_at protos other)
proto_at-erase_at [] offset other = ground arith
proto_at-erase_at ((o, proto) ∷ rest) offset other =
    ground (arith, proto_at-erase_at rest offset other)
