-- ===== src/Encode/Stream/Seen.antt =====
-- The bits that have left an `Encoder` of src/encode.rs, those taken before included.
use mathlib.Core.Path.{subst}
use noflate.Base.{
  ℕ, ◌≤◌, ◌≡◌, sym, ap, ◌∙◌, List, ◌++◌, append_assoc, length, drop, drop-append_self, grown_behind,
  IsBytes, All-append, IsByte,
}
use noflate.Bit.View.{bits, byte_bits, byte_bits-append}
use noflate.Bit.Writer.{Writer}
use noflate.Bit.Writes.{written, Extends}

-- The digits that have left a writer whose first `drained` bytes are `gone`, and those still in it.
abbrev pub seen : List ℕ → ℕ → Writer → List ℕ
seen gone drained w = byte_bits (gone ++ drop drained w.output) ++ bits w.bit_count w.bit_buffer

pub seen-Extends :
    (gone : List ℕ) (drained : ℕ) (w w' : Writer) (digits : List ℕ)
    → drained ≤ length w.output
    → Extends w w'
    → written w' ≡ written w ++ digits
    → seen gone drained w' ≡ seen gone drained w ++ digits
seen-Extends gone drained w w' digits inside e appended =
    let before = byte_bits w.output in
    let buffered = bits w.bit_count w.bit_buffer in
    let buffered' = bits w'.bit_count w'.bit_buffer in
    let split : before ++ (byte_bits e.more ++ buffered') ≡ before ++ (buffered ++ digits) =
      sym (append_assoc before (byte_bits e.more) buffered')
      ∙ ap (λ l. l ++ buffered') (sym (ap byte_bits e.output ∙ byte_bits-append w.output e.more))
      ∙ appended
      ∙ append_assoc before buffered digits in
    ap (λ l. byte_bits (gone ++ drop drained l) ++ buffered') e.output
    ∙ ap (λ l. byte_bits l ++ buffered') (grown_behind gone w.output e.more drained inside)
    ∙ ap (λ l. l ++ buffered') (byte_bits-append (gone ++ drop drained w.output) e.more)
    ∙ append_assoc (byte_bits (gone ++ drop drained w.output)) (byte_bits e.more) buffered'
    ∙ ap (λ l. byte_bits (gone ++ drop drained w.output) ++ l) (cancel before split)
    ∙ sym (append_assoc (byte_bits (gone ++ drop drained w.output)) buffered digits)
  where
    cancel : (xs : List ℕ) {ys zs : List ℕ} → xs ++ ys ≡ xs ++ zs → ys ≡ zs
    cancel xs {ys} {zs} e =
        sym (drop-append_self xs ys) ∙ ap (drop (length xs)) e ∙ drop-append_self xs zs

pub after-IsBytes :
    (xs put : List ℕ) {ys : List ℕ} → IsBytes xs → IsBytes put → ys ≡ xs ++ put → IsBytes ys
after-IsBytes xs put b c e = subst IsBytes (sym e) (All-append IsByte xs put b c)
