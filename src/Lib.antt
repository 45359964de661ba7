-- ===== src/Lib.antt =====
-- UnityCommon is a C library that reads Unity asset files: byte-level helpers under src/common and
-- include/common, and the readers of the file formats under src/io and include/io. Untrusted bytes
-- enter at the bottom: the LZ4 decoder expands the blocks of an archive, the prefix queries check the
-- header of a serialized file and publish where its parts lie, and the scanners of its tables move
-- one bounded cursor over the metadata. Text goes through the UTF-8 decoder, which the
-- check of relative paths uses, and the string builder; eager readers use a byte stream.
-- This library models these parts as functions and proves what they promise to their callers.
--
-- The parts and the files:
--   * Utf8 (src/common/utf8.c, include/common/utf8.h): `decode_one` is `common_utf8_decode_one`, with
--     its cases in `decode_sequence`, and `validate` is `common_utf8_validate`. Utf8/Encoding states the
--     encoding that the decoder inverts.
--   * RelativePath (src/common/relative_path.c, include/common/relative_path.h): the validation loop over
--     the UTF-8 decoder, the comparison and the test for a descendant. `memcmp` is its sign.
--   * AsciiGlob (src/common/ascii_glob.c, include/common/ascii_glob.h): class parser, validation and the
--     matcher, whose rows are lists of Booleans and whose cursors are what is left of the pattern.
--   * Stream (src/common/stream.c, include/common/stream.h, and the byte swaps of
--     include/common/common.h): the cursor of the eager readers, on a host of either byte order.
--   * Lz4 (src/io/lz4_decompress.c): `decompress_block` and the two entry points. The destination is
--     the list of the bytes written so far. A read outside the source or of an unwritten byte, and
--     a write outside the destination, is a `fault`, and -1 is `failed`. Lz4/Format states the format.
--   * Prefix (src/io/serialized_file_prefix.c, include/io/serialized_file_prefix.h): the header query
--     and the prefix query. Addresses are numbers, for the overlap tests of the arguments; a span is
--     its offset and size, since its pointer is always the mapped address plus the offset.
--   * MetadataReader (src/io/serialized_metadata_reader_internal.c and .h, and
--     src/io/serialized_type_shape_internal.h): the cursor as a state that each read passes on; the
--     counters behind pointers are fields of that state.
--   * Directory (src/io/serialized_file_directory.c, include/io/serialized_file_directory.h): the index of
--     types and objects. Directory/Stepping and Directory/Scanner have the scanner, steps on the scan that
--     stop with the result of the call, Directory/Checks what precedes the scans, and Directory/Create the
--     call itself with its two passes, on the prefix query, the cursor and the tracked allocation.
--   * Sha256 (src/common/sha256.c, include/common/sha256.h): the portable context; Sha256/Compression has
--     `sha256_transform`, and Sha256/Reference the hash of a padded message over that function.
--   * ValueDigest (src/io/typetree_value_digest.c, include/io/typetree.h): the digest of a decoded value.
--     The hash is a parameter of the traversal, which runs on a context and, in ValueDigest/Encoding, on
--     plain bytes. ValueDigest/Format states the message apart from the traversal.
--   * StringBuilder (src/common/string_builder.c, include/common/string_builder.h, and the tracked
--     allocation of include/common/common.h): a builder and the two allocation counters as one state.
--     What `malloc`, `realloc` and `vsnprintf` answer are arguments.
--   * Common (include/common/common.h): the size checks and the comparison of strings without case.
-- Base holds what they share: Boolean tests on numbers, lists, bits, words of bytes, and the result
-- type `Run` of code that may fail, fault or run out of fuel.
--
-- Numbers are natural numbers; where the C code may wrap, the remainder is written out, and where it
-- guards a subtraction, the guard is modelled. size_t has 64 bits.
--
-- Fuel: a round of the LZ4 decoder, of the UTF-8 and path validation and of the scans for a NUL reads at
-- least one byte, and a round of a hash update takes one, so one round more than there are bytes is enough. The loop that doubles a
-- capacity ends in 64 rounds. The theorems on these functions say that they return a result.
--
-- Not modelled: the tables of status names; the pointers to which results are written, except where
-- they decide the result; the vendored LZMA decoder; the files, processes and resources of the
-- operating system; CommonCrypto, which sha256.c calls on Apple hosts; the readers of the metadata tail,
-- of schemas and of values, the parser of type trees and the resolver, which stand on the parts above.
pub mod Base
pub mod Common
pub mod Utf8
pub mod RelativePath
pub mod AsciiGlob
pub mod Stream
pub mod StringBuilder
pub mod Lz4
pub mod Prefix
pub mod MetadataReader
pub mod Directory
pub mod Sha256
pub mod ValueDigest
