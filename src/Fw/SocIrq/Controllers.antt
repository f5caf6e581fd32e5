-- ===== src/Fw/SocIrq/Controllers.antt =====
-- The interrupt controllers while the demonstration runs.
use cdc_vp.Base.{
  ℕ, ◌^◌, ◌<◌, ◌≡◌, refl, ap, ◌∙◌, Bool, true, false, not, ◌&&◌, Option, none, some, [], ◌∷◌, ◌==◌,
  arith,
}
use cdc_vp.Clint.Registers.{with_half}
use cdc_vp.Plic.{on_sources}
use cdc_vp.Plic.Single.{single, on_sources-single, on_sources-taken}
use cdc_vp.Platform.CustomSoc.{CustomSoc, i2c_irq}
use cdc_vp.Platform.SocAccess.{armed}
use cdc_vp.Fw.SocIrq.{HandlerPc, dispatch, clear_source, announce, complete}

-- Is the source claimed and not completed?
abbrev pub serving : Option HandlerPc → Bool
serving none = false
serving (some (dispatch code)) = false
serving (some clear_source) = true
serving (some announce) = true
serving (some (complete id)) = id == 1

-- The interrupt controllers: source 1 has priority 1, is enabled, and stands above the threshold; it is
-- being serviced if `taken` says so, and the external interrupt is raised while the line is high and it
-- is not.
pub record Controllers {U I : Type 0} (w : CustomSoc U I) (taken : Bool) : Type 0 where
  pub line : Bool
  pub plic : w.plic ≡ single 0 false 1 2 0 line taken (line && not taken)
  pub compare_fits : w.clint.mtimecmp < 2 ^ 64
  pub defined : w.faulted ≡ false

-- What an access to another component leaves.
pub Controllers-same :
    {U I : Type 0} {w : CustomSoc U I} {u : U} {x : I} {taken : Bool}
    → Controllers w taken
    → Controllers (record w { uart = u; i2c = x }) taken
Controllers-same c = record {
  line = c.line;
  plic = c.plic;
  compare_fits = c.compare_fits;
  defined = c.defined;
}

with_half-lt :
    (upper : Bool) (word v : ℕ) → word < 2 ^ 32 → v < 2 ^ 64 → with_half upper word v < 2 ^ 64
with_half-lt true word v h k = omega arith
with_half-lt false word v h k = omega arith

pub Controllers-armed :
    {U I : Type 0} {taken : Bool} (upper : Bool) (word : ℕ) (w : CustomSoc U I)
    → word < 2 ^ 32
    → Controllers w taken
    → Controllers (armed upper word w) taken
Controllers-armed upper word w small c = record {
  line = c.line;
  plic = c.plic;
  compare_fits = with_half-lt upper word w.clint.mtimecmp small c.compare_fits;
  defined = c.defined;
}

pub and_true : (b : Bool) → b ≡ b && true
and_true true = refl
and_true false = refl

and_false : (b : Bool) → false ≡ b && false
and_false true = refl
and_false false = refl

-- A new level of the line.
pub Controllers-line :
    {U I : Type 0} (taken level : Bool) (w : CustomSoc U I)
    → Controllers w taken
    → Controllers (i2c_irq level w) taken
unfolding i2c_irq
Controllers-line true level w c = record {
  line = level;
  plic =
      ap (λ p. on_sources p (level ∷ [])) c.plic
      ∙ on_sources-taken 0 false 1 2 0 refl refl c.line _ level
      ∙ ap (single 0 false 1 2 0 level true) (and_false level);
  compare_fits = c.compare_fits;
  defined = c.defined;
}
Controllers-line false level w c = record {
  line = level;
  plic =
      ap (λ p. on_sources p (level ∷ [])) c.plic
      ∙ on_sources-single 0 false 1 2 0 refl refl c.line _ level
      ∙ ap (single 0 false 1 2 0 level false) (and_true level);
  compare_fits = c.compare_fits;
  defined = c.defined;
}

-- The line goes high while the source is not being serviced.
pub Controllers-raised :
    {U I : Type 0} (w : CustomSoc U I) (c : Controllers w false)
    → (i2c_irq true w).plic ≡ single 0 false 1 2 0 true false true
unfolding i2c_irq
Controllers-raised w c =
    ap (λ p. on_sources p (true ∷ [])) c.plic
    ∙ on_sources-single 0 false 1 2 0 refl refl c.line _ true
