-- ===== src/Decode/Stream/FixedPlaces.antt =====
-- Where a machine of src/decode.rs is within a stream of blocks with fixed codes.
use mathlib.Core.Path.{subst}
use noflate.Base.{
  ℕ, ◌+◌, ◌-◌, ◌≤◌, ◌<◌, ◌≡◌, refl, sym, ap, ◌∙◌, Bool, true, false, List, [], ◌++◌, append_assoc,
  append-nil, arith, length, length-append, All,
}
use noflate.Error.{Result, ok}
use noflate.Bit.Reads.{stream}
use noflate.Lz77.{Lz77Code}
use noflate.Lz77.Reach.{IsToken, Reaches, HasWindow, expand, expand-behind}
use noflate.Encode.Symbols.{BlockDigits}
use noflate.Encode.Fixed.{FixedStream, last, more, fixed_header, IsChunk}
use noflate.Decode.State.{Machine, block_header, symbol_loop, finished, progress}
use noflate.Decode.Body.{step, max_internal_buffer}
use noflate.Decode.Body.Tokens.{Holds, Holds-more}
use noflate.Decode.Fixed.{FixedTables}
use noflate.Decode.Stream.FixedSteps.{step-HeaderStep}

module _ (f : FixedTables) (all behind : List ℕ) where
  -- What stands behind a block, with what is put out at its end.
  abbrev pub AfterBlock : Bool → List ℕ → List ℕ → List ℕ → Type 0
  AfterBlock true past content tail = (content ≡ []) × (tail ≡ behind)
  AfterBlock false past content tail = FixedStream f behind past content tail

  -- A machine before a block: `gone` and its output, and the content of the rest of the stream, are
  -- `target`. Of all that was put out, the window is there.
  pub record AtHeader (gone target : List ℕ) (s : Machine) : Type 0 where
    pub state : s.state ≡ block_header
    pub content : List ℕ
    pub digits : List ℕ
    pub blocks : FixedStream f behind (gone ++ s.output) content digits
    pub kept : HasWindow (length (gone ++ s.output)) s.output
    pub holds : Holds all 7 digits s.reader
    pub goal : (gone ++ s.output) ++ content ≡ target

  -- A machine within a block, with the tokens that are left of it.
  pub record InBlock (gone target : List ℕ) (s : Machine) : Type 0 where
    pub is_final : Bool
    pub state : s.state ≡ symbol_loop is_final f.ld f.dd
    pub left : List Lz77Code
    pub left_digits : List ℕ
    pub coded : BlockDigits f.lit f.dist left left_digits
    pub limits : All IsToken left
    pub have : ℕ
    pub reach : Reaches left have
    pub kept : HasWindow have s.output
    pub counted : have ≡ length gone + length s.output
    pub tail : List ℕ
    pub content : List ℕ
    pub holds : Holds all (f.coder.eob.code.width + 7) (left_digits ++ tail) s.reader
    pub after : AfterBlock is_final (gone ++ expand left s.output) content tail
    pub goal : (gone ++ expand left s.output) ++ content ≡ target

  -- Where the loop leaves the machine: at the end of the stream with all of it put out, or within a
  -- block with as much output unread as there may be.
  pub data Ran (gone target : List ℕ) (drained : ℕ) (s : Machine) (out : Result Bool × Machine)
      : Type 0 where
    ended :
        (s' : Machine)
        → out ≡ (ok true, s')
        → s'.state ≡ finished
        → Holds all 7 behind s'.reader
        → gone ++ s'.output ≡ target
        → (put : List ℕ) → s'.output ≡ s.output ++ put
        → Ran gone target drained s out
    yielded :
        (s' : Machine)
        → out ≡ (ok false, s')
        → InBlock gone target s'
        → max_internal_buffer ≤ length s'.output - drained
        → (put : List ℕ) → s'.output ≡ s.output ++ put
        → length (stream s'.reader) ≤ length (stream s.reader)
        → (length s.output < length s'.output
            → length (stream s'.reader) < length (stream s.reader))
        → Ran gone target drained s out

  -- The tokens of a chunk put out the chunk.
  expand_chunk :
      (ts : List Lz77Code) (chunk gone out : List ℕ)
      → IsChunk (gone ++ out) ts chunk
      → HasWindow (length (gone ++ out)) out
      → gone ++ expand ts out ≡ (gone ++ out) ++ chunk
  expand_chunk ts chunk gone out c kept =
      sym (expand-behind ts (length (gone ++ out)) gone out c.limits c.reach kept) ∙ c.same

  -- Behind the header of a block.
  module _ (gone target : List ℕ) (drained : ℕ) where
    -- What a step into a block gives.
    pub record Entered (s : Machine) : Type 0 where
      pub after : Machine
      pub goes : step drained s ≡ (ok progress, after)
      pub block : InBlock gone target after
      pub fewer : length (stream after.reader) < length (stream s.reader)
      pub output : after.output ≡ s.output

    enter_block :
        (is_final : Bool) (ts : List Lz77Code) (digits chunk content tail : List ℕ) (s : Machine)
        → s.state ≡ block_header
        → IsChunk (gone ++ s.output) ts chunk
        → HasWindow (length (gone ++ s.output)) s.output
        → BlockDigits f.lit f.dist ts digits
        → AfterBlock is_final ((gone ++ s.output) ++ chunk) content tail
        → Holds all 7 (fixed_header is_final ++ (digits ++ tail)) s.reader
        → (gone ++ s.output) ++ (chunk ++ content) ≡ target
        → Entered s
    enter_block is_final ts digits chunk content tail s at c kept block after holds goal =
        let put = expand_chunk ts chunk gone s.output c kept in
        let h = step-HeaderStep f all drained is_final (digits ++ tail) s at holds in
        record {
          after = record s { reader = h.reader; state = symbol_loop is_final f.ld f.dd };
          goes = h.goes;
          block = record {
            is_final = is_final;
            state = refl;
            left = ts;
            left_digits = digits;
            coded = block;
            limits = c.limits;
            have = length (gone ++ s.output);
            reach = c.reach;
            kept = kept;
            counted = length-append gone s.output;
            tail = tail;
            content = content;
            holds = Holds-more (omega arith) h.holds;
            after = subst (λ l. AfterBlock is_final l content tail) (sym put) after;
            goal =
                ap (λ l. l ++ content) put ∙ append_assoc (gone ++ s.output) chunk content ∙ goal;
          };
          fewer = omega (arith, ap length h.holds.there, ap length holds.there);
          output = refl;
        }

    pub entered :
        {content stream : List ℕ} (s : Machine)
        → FixedStream f behind (gone ++ s.output) content stream
        → HasWindow (length (gone ++ s.output)) s.output
        → s.state ≡ block_header
        → Holds all 7 stream s.reader
        → (gone ++ s.output) ++ content ≡ target
        → Entered s
    entered {content} s (last ts digits c block e) kept at holds goal =
        enter_block true ts digits content [] behind s at c kept block (refl, refl)
          (subst (λ l. Holds all 7 l s.reader) e holds)
          (ap (λ l. (gone ++ s.output) ++ l) (append-nil content) ∙ goal)
    entered s (more ts digits chunk content' stream' c block rest parts e) kept at holds goal =
        enter_block false ts digits chunk content' stream' s at c kept block rest
          (subst (λ l. Holds all 7 l s.reader) e holds)
          (ap (λ l. (gone ++ s.output) ++ l) (sym parts) ∙ goal)
