-- ===== src/Fw/SocIrq/Log.antt =====
-- What the UART gets from the demonstration.
use cdc_vp.Base.{
  ℕ, suc, ◌≡◌, sym, ap, ◌∙◌, Bool, true, false, List, [], ◌∷◌, ◌++◌, ltb, if◌then◌else◌, arith,
}
use cdc_vp.Device.{Transport}
use cdc_vp.Stub.Words.{fed, fed-append}
use cdc_vp.Fw.{hello, timer_text, ext_text, done_text}

-- What the program sends to the UART behind the greeting: a text of the handler, or a byte of the last
-- text, which a text of the handler can come into.
pub data Message : Type 0 where
  timer_said ext_said : Message
  byte_said : ℕ → Message

abbrev text : Message → List ℕ
text timer_said = timer_text
text ext_said = ext_text
text (byte_said c) = c ∷ []

abbrev is : Message → Message → Bool
is timer_said timer_said = true
is ext_said ext_said = true
is _ _ = false

-- The texts of the messages, of which the last comes first.
abbrev pub texts : List Message → List ℕ
texts [] = []
texts (x ∷ said) = texts said ++ text x

-- How often a text of the handler is among them.
abbrev pub tally : Message → List Message → ℕ
tally x [] = 0
tally x (y ∷ said) = let rest = tally x said in if is x y then suc rest else rest

-- The bytes of the last text that are among them, and then `left`.
abbrev pub bytes_said : List Message → List ℕ → List ℕ
bytes_said [] left = left
bytes_said (byte_said c ∷ said) left = bytes_said said (c ∷ left)
bytes_said (_ ∷ said) left = bytes_said said left

-- The UART has got the greeting and the messages; the variables tell which, and `left` is what is left of
-- the last text.
pub record Log {U : Type 0} (uart : Transport U) (u0 u : U) (timer ext : Bool) (left : List ℕ)
    : Type 0 where
  pub said : List Message
  pub output : u ≡ fed uart 0 (texts said) (fed uart 0 hello u0)
  pub timer_once : tally timer_said said ≡ (if timer then 1 else 0)
  pub ext_some : ext ≡ ltb 0 (tally ext_said said)
  pub last : bytes_said said left ≡ done_text

module _ {U : Type 0} (uart : Transport U) {u0 u : U} {timer ext : Bool} where
  one_more :
      {left : List ℕ} (x : Message) (l : Log uart u0 u timer ext left)
      → fed uart 0 (text x) u ≡ fed uart 0 (texts (x ∷ l.said)) (fed uart 0 hello u0)
  one_more x l =
      ap (fed uart 0 (text x)) l.output
      ∙ sym (fed-append uart 0 (texts l.said) (text x) (fed uart 0 hello u0))

  pub Log-timer :
      {left : List ℕ}
      → Log uart u0 u timer ext left
      → timer ≡ false
      → Log uart u0 (fed uart 0 timer_text u) true ext left
  Log-timer l first = record {
    said = timer_said ∷ l.said;
    output = one_more timer_said l;
    timer_once = ground (arith, l.timer_once);
    ext_some = l.ext_some;
    last = l.last;
  }

  pub Log-ext :
      {left : List ℕ}
      → Log uart u0 u timer ext left
      → Log uart u0 (fed uart 0 ext_text u) timer true left
  Log-ext l = record {
    said = ext_said ∷ l.said;
    output = one_more ext_said l;
    timer_once = l.timer_once;
    ext_some = ground arith;
    last = l.last;
  }

  pub Log-byte :
      (c : ℕ) {left : List ℕ}
      → Log uart u0 u timer ext (c ∷ left)
      → Log uart u0 (fed uart 0 (c ∷ []) u) timer ext left
  Log-byte c l = record {
    said = byte_said c ∷ l.said;
    output = one_more (byte_said c) l;
    timer_once = l.timer_once;
    ext_some = l.ext_some;
    last = l.last;
  }
