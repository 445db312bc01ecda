-- ===== src/Buf.antt =====
-- src/buf.rs: the byte buffer of the decoders, a `Vec` with an offset to its unread part.
pub mod Queue
use noflate.Base.{
  ℕ, ◌+◌, ◌-◌, ◌*◌, List, [], ◌++◌, length, take, drop, ltb, leb, ◌==◌, ◌&&◌, if◌then◌else◌,
}
use noflate.Error.{Result, ok, panic}

pub record Buf : Type 0 where
  pub bytes : List ℕ
  pub offset : ℕ

abbrev pub compact_threshold : ℕ
compact_threshold = 1024 * 1024

unfoldable pub new : Buf
new = record { bytes = []; offset = 0 }

unfoldable pub get : Buf → List ℕ
get b = drop b.offset b.bytes

-- `copy_within` and `truncate` keep the unread bytes.
maybe_compact : Buf → Buf
maybe_compact b =
    if ltb compact_threshold (length b.bytes) && ltb 0 b.offset
    then (let remaining = length b.bytes - b.offset in
        record {
          bytes = take remaining (drop b.offset b.bytes ++ drop remaining b.bytes);
          offset = 0;
        })
    else b

unfoldable pub feed : List ℕ → Buf → Buf
unfolding maybe_compact
feed buf b = maybe_compact (record b { bytes = b.bytes ++ buf })

-- The `assert!` panics before anything changes.
unfoldable pub advance : ℕ → Buf → Result Buf
advance n b =
    if leb (b.offset + n) (length b.bytes)
    then ok (
        if b.offset + n == length b.bytes
        then record { bytes = []; offset = 0 }
        else record b { offset = b.offset + n })
    else panic
