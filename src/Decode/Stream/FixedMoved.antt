-- ===== src/Decode/Stream/FixedMoved.antt =====
-- The reader of the next call of `drive` of src/decode.rs.
use mathlib.Core.Path.{subst}
use noflate.Base.{ℕ, ◌+◌, refl, sym, ap, ◌∙◌, List, ◌++◌, arith, drop, IsByte, IsBytes, All-drop}
use noflate.Bit.View.{bits, byte_bits}
use noflate.Bit.Reader.{Reader, new_seeded}
use noflate.Decode.State.{Machine}
use noflate.Decode.Body.Tokens.{Holds}
use noflate.Decode.Fixed.{FixedTables}
use noflate.Decode.Stream.FixedPlaces.{InBlock}

-- The reader of the next call has the bytes behind those that this one has loaded, and its buffered
-- bits.
pub Holds-reseeded :
    {all digits : List ℕ} {most : ℕ} {r : Reader}
    → Holds all most digits r
    → Holds
        (drop r.byte_index all)
        most
        digits
        (new_seeded (drop r.byte_index all) r.bit_buffer r.bit_count)
unfolding new_seeded
Holds-reseeded {all} {digits} {most} {r} h =
    let v = h.valid in
    record {
      valid = record {
        index_in = omega arith;
        bytes = All-drop IsByte r.byte_index all (subst IsBytes h.input v.bytes);
        count_small = v.count_small;
        buffer_fits = v.buffer_fits;
      };
      there =
          ap (λ l. bits r.bit_count r.bit_buffer ++ byte_bits (drop r.byte_index l)) (sym h.input)
          ∙ h.there;
      input = refl;
      few = h.few;
    }

pub InBlock-moved :
    (f : FixedTables) (behind gone target : List ℕ) {all all' : List ℕ} (s : Machine)
    (b : InBlock f all behind gone target s) (r : Reader)
    → Holds all' (f.coder.eob.code.width + 7) (b.left_digits ++ b.tail) r
    → InBlock f all' behind gone target (record s { reader = r })
InBlock-moved f behind gone target s b r holds = record {
  is_final = b.is_final;
  state = b.state;
  left = b.left;
  left_digits = b.left_digits;
  coded = b.coded;
  limits = b.limits;
  have = b.have;
  reach = b.reach;
  kept = b.kept;
  counted = b.counted;
  tail = b.tail;
  content = b.content;
  holds = holds;
  after = b.after;
  goal = b.goal;
}
