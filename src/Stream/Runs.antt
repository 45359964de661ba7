-- ===== src/Stream/Runs.antt =====
-- Runs of the stream, and its theorems on a few bytes.
use unity_common.Base.{
  ◌+◌, ◌-◌, ◌%◌, ◌≤◌, ◌<◌, ◌≡◌, refl, ◌⊎◌, true, false, some, [], ◌∷◌, arith, take, drop,
}
use unity_common.Base.Words.{Bytes}
use unity_common.Base.Words.{big_endian, little_endian}
use unity_common.StringBuilder.{Tracker}
use unity_common.Stream.{
  ByteStream, stream_init, stream_set_endian, stream_align, stream_read_uint8, stream_read_uint16,
  stream_read_uint32, stream_read_uint64, stream_read_string_alloc,
}
use unity_common.Stream.Reads.{
  IsStream, Moved, reads-Moved, stream_read_uint16-value, stream_align-multiple,
}
use unity_common.Stream.Strings.{StringEnds, stream_read_string_alloc-StringEnds}

abbrev bytes : Bytes
bytes = 1 ∷ 2 ∷ 3 ∷ 4 ∷ 5 ∷ 6 ∷ 7 ∷ 8 ∷ 9 ∷ 0 ∷ []

abbrev s : ByteStream
s = record { bytes = bytes; size = 10; position = 1; is_big_endian = false }

abbrev t : Tracker
t = record { allocated_bytes = 0; allocations_count = 0 }

begins :
    stream_init bytes 10 ≡ record { bytes = bytes; size = 10; position = 0; is_big_endian = false }
unfolding stream_init
begins = refl

swapped : (stream_read_uint32 false (stream_set_endian true s)).0 ≡ some 0x0203_0405
unfolding stream_read_uint32 stream_set_endian little_endian
swapped = refl

swapped_long : (stream_read_uint64 true s).0 ≡ some 0x0908_0706_0504_0302
unfolding stream_read_uint64 big_endian
swapped_long = refl

aligned : (stream_align 4 s).1.position ≡ 4
unfolding stream_align
aligned = refl

reads-Moved_example :
    Moved 1 s (stream_read_uint8 s).1
    × Moved 2 s (stream_read_uint16 false s).1
    × Moved 4 s (stream_read_uint32 false s).1
    × Moved 8 s (stream_read_uint64 false s).1
reads-Moved_example = reads-Moved false s (omega arith)

stream_read_uint16-value_example :
    stream_read_uint16 false s
    ≡ (some (little_endian (take 2 (drop 1 bytes))), record s { position = 3 })
stream_read_uint16-value_example =
    stream_read_uint16-value false s (omega arith) (omega arith) (omega arith)

stream_align-multiple_example :
    (((stream_align 4 s).0 ≡ true)
      × ((stream_align 4 s).1.position % 4 ≡ 0)
      × (1 ≤ (stream_align 4 s).1.position)
      × ((stream_align 4 s).1.position < 1 + 4)
      × IsStream (stream_align 4 s).1)
    ⊎ ((stream_align 4 s ≡ (false, s)) × (10 < 1 + (4 - 1 % 4)))
stream_align-multiple_example = stream_align-multiple 4 s (omega arith) (omega arith)

stream_read_string_alloc-StringEnds_example :
    StringEnds true s t (stream_read_string_alloc true s t)
stream_read_string_alloc-StringEnds_example =
    stream_read_string_alloc-StringEnds true s t (omega arith)
