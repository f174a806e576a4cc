-- ===== src/Lib.antt =====
-- Icing, an embedded full-text search library in C++ (icing/).
--
-- A search runs a tree of iterators over the documents that match a query. A leaf serves the hits of
-- a term; inner iterators combine, exclude, filter and restrict. The scoring loop drains the root
-- into scored hits, a heap ranks them, and a cache of result states hands them out page by page. Hits
-- are packed words, kept in posting lists of compressed bytes. The documents are in a log; the document
-- store keeps the maps and caches that say which of them exist.
--
-- The files, with the code that each one models:
--   Base            no code: shared names, Boolean tests, lists and the digits of machine words
--   Hit             icing/index/hit/hit.{h,cc}: Hit and its fields; Hit/Bitfield has the BitfieldGet
--                   and BitfieldSet of icing/util/bit-util.h
--   DocHitInfo      icing/index/hit/doc-hit-info.{h,cc}: UpdateSection, MergeSectionsFrom, operator<
--   PostingList     icing/index/main/posting-list-used.{h,cc}, posting-list-utils.{h,cc}: Buffer has
--                   the bytes, VarInt the codes of icing/legacy/index/icing-bit-util.h, Used the
--                   state, Read has GetHitsInternal, Prepend has PrependHit, Move has MoveFrom,
--                   PopFrontHits and PrependHitArray; Layout says how the bytes stand for hits,
--                   Edits what writing does to them; GetHits, PrependHit, Sizes and
--                   Filling have the proofs
--   Iterator        icing/index/iterator/doc-hit-info-iterator.h: the interface and AdvanceTo; And, Or,
--                   Not, AllDocumentId, AndNary, OrNary and Select (Filter, SectionRestrict) have the
--                   classes of the same names, Row the vectors of iterators of the n-ary ones, and
--                   TermLite icing/index/lite/doc-hit-info-iterator-term-lite.cc; Queries,
--                   NaryQueries and Restrictions say what scoring each of them gives
--   Scoring         icing/scoring/scoring-processor.cc: the loop of Score; Ranker has
--                   icing/scoring/ranker.cc and the comparator of scored-document-hit.h
--   Result          icing/result/result-state.{h,cc}; Manager has result-state-manager.{h,cc}, and
--                   Pages a client that asks for all pages
--   Query           icing/query/query-processor.{h,cc}: the frames of ParseRawQuery, which make a tree
--                   of iterators out of tokens; Grammar has the queries, their tokens and trees;
--                   Evaluate makes the iterators of a tree and says which documents a query asks for
--   Schema          icing/schema/schema-util.{h,cc}: what a new version of a type changes; Delta has
--                   ComputeCompatibilityDelta, Dependencies the map of the types that depend on a
--                   type, Validate the checks of a schema, Validator
--                   icing/util/document-validator.cc, and below it what a delta means for documents
--   Store           icing/store: FileBackedVector has icing/file/file-backed-vector.h, KeyMapper
--                   key-mapper.h, ProtoLog icing/file/portable-file-backed-proto-log.h, UsageStore
--                   usage-store.{h,cc}, DocumentStore document-store.{h,cc}: Caches has the changes of
--                   single members, Put, Delete, Usage, Schema, Optimize and Counts the operations;
--                   View has the store as a map from keys to documents, and its invariant
--   Tests           runs on small inputs, and the theorems at concrete inputs
--
-- An iterator is a state type with `Operations` (Advance and the members that it leaves). Its
-- contract is the record `Enumerates`: a relation between states and the list of matches still to
-- come, in falling order of document ids, that every call of Advance keeps. Theorems on a class take
-- the contract of its operands and give its own, so they reach whole trees, and the loop of Score is
-- treated once for all of them. The n-ary iterators have any number of operands, each with a state of
-- its own type: a `Row` has what their loops do with these, one operand in front of a row, and
-- `RowLaw` is its contract. The n-ary OR starts again behind document 0, so it has `Enumerates` only
-- for operands without this document; for the loop of Score, which stops at the first error, `Walks`
-- of Scoring/Drain is enough. A posting list has a `Layout`, one for each of its three states.
-- The manager has `IsSound`, its invariant as long as no group limit takes out a hit. The document
-- store's own `IsSound` relates its maps, caches and log; what the store shows of a key at a time is
-- `lookup`, and Put, Get and Delete are stated against this map; `IsFiled` of Put/Filed says besides that
-- an existing document is under its own key, which OptimizeInto needs. Methods of the store return a status
-- and the store as it is then, so that what an error leaves behind is part of the model.
--
-- Numbers are natural numbers; a machine word keeps its wrap-around where the code can reach it.
-- Loops run on fuel: `loop_fuel` is 2 ^ 20, since document ids are below 2 ^ 20 - 1 and fall; a loop
-- over a section mask has a round for each of the 16 bits, one over a posting list a round for each
-- byte, one over a heap or a page a round for each hit; the loop in which AND aligns two iterators has
-- `loop_fuel` rounds for each of them. For the iterators, the scoring loop, pages
-- and GetHits the theorems below show that this is enough: they give the result itself.
--
-- Parameters stand for what is not modelled: the scorer and the order of scores (`double`), the
-- lookups of the document store and of the schema store that the iterators use, the lexicon, the random
-- generator, the tokenizer and the normalizer of queries, the validator of documents, the sizes of
-- protos, the hash of farmhash, and whether a trie has room for a key. What the result of SetSchema
-- says of the documents that exist is a hypothesis, `Describes` of Schema/Described. Operations on
-- files are taken to succeed, and times are not before the epoch. Each operation of the document store
-- has one time, where the code reads the clock at each test of a document's existence. Keys are taken
-- to have no zero byte, at which `c_str` would end them in the trie. The counts of hits of the result
-- state manager are `int` in the code; here they stop at 0 and have no largest number.
--
-- Not modelled are the counters and the statistics of iterators, ToString, logging, the snippet
-- contexts and projection trees that result states carry, the headers and checksums of files and what
-- is done after a crash, PersistToDisk, the storage info, the sections of schemas, tokenization, and
-- the main index around the posting lists. Where the code has undefined behaviour (the front of an
-- empty queue) the model returns `none`.
mod Base
pub mod Hit
pub mod DocHitInfo
pub mod Iterator
pub mod Scoring
pub mod PostingList
pub mod Result
mod Tests
pub mod Store
pub mod Query
pub mod Schema
