-- ===== src/Lib.antt =====
-- Columnix, a columnar storage format, verified at the level of its C library (lib/).
--
-- A column (lib/column.c) is a byte buffer that values are put into and that a cursor reads in
-- batches of 64. An index (lib/index.c) is the count, minimum and maximum of a column. A row group
-- (lib/row_group.c) holds columns of one length, each with null bits and indexes; it loads lazy
-- columns at first use, decompressing them (lib/compress.c), and its cursor hands out the batches of
-- all columns at one row position. A predicate (lib/predicate.c) is asked of the indexes alone, which
-- may answer for all rows at once, or of a batch, where the comparisons (lib/match.c) give a mask with
-- a bit for each row. A row cursor (lib/row.c) walks through the rows whose bits are set. A row group
-- writer (lib/writer.c) puts the columns of whole row groups into a file, with headers, strings,
-- descriptors and a footer (lib/file.h); the writer in front of it gathers single values. A row group
-- reader (lib/reader.c) maps the file and gives row groups of lazy columns; the reader in front of it
-- goes through the rows of all of them, or lets threads take one row group after the other.
--
-- Base: numbers, lists, integers, bits, little-endian bytes, and `Outcome`, the result of a call:
--   `done`, `failed` for the false or NULL of an error path, `aborted` for a failed assert.
-- Common: lib/common.h. System: malloc, madvise, LZ4 and Zstandard as parameters.
-- Column: `cx_column` and the put functions; Column.Cursor: `cx_column_cursor`. Column.Reads,
--   Access and Skips: what a client of a column relies on, whatever its type; Column.Grow: resize and
--   put; Column.Counts: put adds one; Column.Read, Cells, Put and Fixed: the types with cells of 4 or 8 bytes; Column.Strings and
--   Texts: strings; Column.Packs, LastWord, Bitset and Bits: bits; Column.Types: all of them.
-- Scalar: the types that an index orders, C's five copies of one piece of code written once.
-- Index: `cx_index_new`; Index.Match: `cx_index_match_*`; Index.Cover, Sound,
--   Build and New: proofs.
-- Match: `cx_match_*`; Match.Str: the comparisons of strings; Match.Mask and Match.Substring:
--   proofs.
-- Compress: `cx_compress` and `cx_decompress`; Compress.Roundtrip: proofs.
-- RowGroup: `cx_row_group`; RowGroup.Cursor and RowGroup.Batch: `cx_row_group_cursor`;
--   RowGroup.Reading and Table: proofs.
-- Predicate: building and validity; Predicate.Indexes: `cx_index_match_indexes`; Predicate.Rows:
--   `cx_index_match_rows`; Predicate.Optimize: costs and `cx_predicate_optimize`; Predicate.Tree,
--   Answer, Keeps, Reorder, Cheapest and Frame: proofs.
-- File: the structs of a file; File.Struct and Fits: their bytes; File.Stream: stdio, whose refusals
--   are a parameter. Attempt: calls that fail half-way, with the object they leave.
-- GroupWriter: `cx_row_group_writer`; GroupWriter.Put and Finish: its put and finish;
--   GroupWriter.Append, Tail and Closing: proofs on finish; GroupWriter.Written, Saved, Puts, Groups and
--   Whole: proofs on put; GroupWriter.Building and Created: proofs on the rest.
-- Writer: `cx_writer`; Writer.Gathers, Steps, Taken, Stores and Rows: proofs.
-- GroupReader: `cx_row_group_reader`; GroupReader.Get: its row groups; GroupReader.Strings, Opens,
--   Reopen, Regain and Restore: proofs.
-- Reader: `cx_reader`; Reader.Loads, Next and Count: proofs. Reader.Query: `cx_reader_query`, a
--   schedule being the list of the threads that have a turn; Reader.Query.Once and Ends: proofs.
-- Row: `cx_row_cursor`; Row.Get: its get functions; Row.Step, Every and Ends:
--   proofs.
-- Tests: concrete inputs.
--
-- A pointer into memory is the list of the bytes that it points to. An `int32_t` or `int64_t` is an
-- integer, a float its IEEE-754 bit pattern, compared as IEEE-754 has it. size_t sums wrap at 2^64.
-- Loops run on fuel: 65 doublings of a buffer (the 64th wraps to 0 and asserts), a round for each
-- byte of a column in `index_column` (a batch that is not empty moves by a byte at least), a level of
-- the tree for each level of `optimize`, rows / 64 + 2 rounds for the masks of a row cursor
-- (enough below 2^64 - 64 rows; C's loop does not end above), and a round for each row group that is
-- left, and one more, for a reader. `aborted` is also a read outside of the mapped file.
-- The build is the scalar one, without SSE 4.2 or AVX, on a little-endian 64-bit machine. What C
-- leaves behind after an error path is followed for the writers, and else is not. A stream is its file:
-- what stdio holds back before a flush is not modelled. Not modelled either: freeing memory, the SIMD
-- code, the JNI and Python bindings, the command line tools.
pub mod Base
pub mod Common
pub mod System
pub mod Column
pub mod Scalar
pub mod Index
pub mod Match
pub mod Compress
pub mod RowGroup
pub mod Predicate
pub mod Row
pub mod File
pub mod Attempt
pub mod GroupWriter
pub mod Writer
pub mod GroupReader
pub mod Reader
mod Tests
