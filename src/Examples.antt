-- ===== src/Examples.antt =====
-- Runs of the bit reader and writer, the checksums and the buffer at small inputs.
use noflate.Base.{ℕ, IsBytes, ◌≡◌, List, [], ◌∷◌, ◌++◌, arith, drop}
use noflate.Error.{ok, err}
use noflate.Bit.View.{bits}
use noflate.Bit.Reader
use noflate.Bit.Reader.{Reader, eof, read_bits, peek_bits}
use noflate.Bit.Writer.{Writer, write_bits}
use noflate.Bit.Reads
use noflate.Bit.Reads.{stream}
use noflate.Bit.Refine.{IsRead, read_bits-IsRead, read_bits-eof}
use noflate.Bit.Writes.{IsFlushed, written, written-write_bits}
use noflate.Bit.Fields.{read_fields, encode_fields, read_fields-encode_fields}
use noflate.Crc32
use noflate.Crc32.Bitwise.{bitwise}
use noflate.Crc32.Streaming.{update-bitwise, update-append_crc32}
use noflate.Adler32
use noflate.Adler32.Reference.{sums, IsReduced, update-sums, update-append}
use noflate.Buf
use noflate.Buf.{Buf}
use noflate.Buf.Queue
use noflate.Buf.Queue.{get-feed, get-advance}
use noflate.Bit.Reader.{available_bits}

abbrev pub two_bytes : List ℕ
two_bytes = 97 ∷ 98 ∷ []

two_bytes-IsBytes : IsBytes two_bytes
two_bytes-IsBytes = (omega arith, (omega arith, tt))

abbrev three_fields : List (ℕ × ℕ)
three_fields = (3, 5) ∷ (16, 40000) ∷ (7, 100) ∷ []

read_fields-encode_fields_example :
    (read_fields (3 ∷ 16 ∷ 7 ∷ []) (Reader.new_seeded (encode_fields three_fields) 0 0)).0
    ≡ ok (5 ∷ 40000 ∷ 100 ∷ [])
read_fields-encode_fields_example =
    read_fields-encode_fields three_fields
      ((omega arith, omega arith), ((omega arith, omega arith), ((omega arith, omega arith), tt)))

abbrev reader : Reader
reader = record { input = two_bytes; byte_index = 1; bit_buffer = 12; bit_count = 5 }

abbrev reader-IsValid : Reads.IsValid reader
reader-IsValid = record {
  index_in = omega arith;
  bytes = two_bytes-IsBytes;
  count_small = omega arith;
  buffer_fits = omega arith;
}

read_bits-IsRead_example : IsRead 9 reader (read_bits 9 reader)
read_bits-IsRead_example = read_bits-IsRead 9 reader reader-IsValid (omega arith) (omega arith)

read_bits-eof_example : (read_bits 14 reader).0 ≡ err eof
read_bits-eof_example = read_bits-eof 14 reader reader-IsValid (omega arith) (omega arith)

abbrev writer : Writer
writer = record { output = two_bytes; bit_buffer = 12; bit_count = 5 }

abbrev writer-IsFlushed : IsFlushed writer
writer-IsFlushed = record { count_small = omega arith; buffer_fits = omega arith }

written-write_bits_example :
    IsFlushed (write_bits 9 300 writer)
    × (written (write_bits 9 300 writer) ≡ written writer ++ bits 9 300)
written-write_bits_example =
    written-write_bits 9 300 writer writer-IsFlushed (omega arith) (omega arith)

abbrev crc : Crc32.Crc32
crc = record { state = 0xE8B7BE43 }

update-bitwise_example : (Crc32.update two_bytes crc).state ≡ bitwise two_bytes crc.state
update-bitwise_example = update-bitwise two_bytes crc (omega arith) two_bytes-IsBytes

update-append_crc32_example :
    Crc32.value (Crc32.update (99 ∷ []) (Crc32.update two_bytes crc))
    ≡ Crc32.value (Crc32.update (97 ∷ 98 ∷ 99 ∷ []) crc)
update-append_crc32_example =
    update-append_crc32 two_bytes (99 ∷ []) crc (omega arith) two_bytes-IsBytes (omega arith, tt)

abbrev adler : Adler32.Adler32
adler = record { a = 65520; b = 7 }

abbrev adler-IsReduced : IsReduced adler
adler-IsReduced = record { a_small = omega arith; b_small = omega arith }

update-sums_example : Adler32.update two_bytes adler ≡ sums two_bytes adler
update-sums_example = update-sums two_bytes adler two_bytes-IsBytes adler-IsReduced

update-append_example :
    Adler32.update (97 ∷ 98 ∷ 99 ∷ []) adler
    ≡ Adler32.update (99 ∷ []) (Adler32.update two_bytes adler)
update-append_example =
    update-append two_bytes (99 ∷ []) adler two_bytes-IsBytes (omega arith, tt) adler-IsReduced

abbrev buffer : Buf
buffer = record { bytes = 1 ∷ 97 ∷ 98 ∷ []; offset = 1 }

abbrev buffer-IsValid : Queue.IsValid buffer
buffer-IsValid = record { offset_in = omega arith }

get-feed_example :
    Queue.IsValid (Buf.feed (99 ∷ []) buffer)
    × (Buf.get (Buf.feed (99 ∷ []) buffer) ≡ Buf.get buffer ++ 99 ∷ [])
get-feed_example = get-feed (99 ∷ []) buffer buffer-IsValid

get-advance_example :
    (b' : Buf) × (Buf.advance 1 buffer ≡ ok b')
    × Queue.IsValid b'
    × (Buf.get b' ≡ drop 1 (Buf.get buffer))
get-advance_example = get-advance 1 buffer buffer-IsValid (unfold Buf.get in omega arith)
