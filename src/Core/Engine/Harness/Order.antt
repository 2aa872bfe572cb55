-- ===== src/Core/Engine/Harness/Order.antt =====
-- core/engine.py, the order of the coalesced block facts.
use wagmi_bench.Prelude.{
  ℕ, ◌≡◌, true, false, not, ltb, ◌==◌, if◌then◌else◌, IsPreorder, Text, text_eqb, text_eqb_iff,
  text_leb, text_leb_antisymm, by_key-IsPreorder, arith,
}
use wagmi_bench.Core.Engine.Harness.{port_rank, block_leb}

text_order : IsPreorder text_leb
text_order = by_key-IsPreorder (λ (t : Text). t)

lex_total :
    (d d' : Text) (p p' : ℕ) (q q' : Text)
    → (if not (text_eqb d d')
        then text_leb d d'
        else if not (p == p')
        then ltb p p'
        else text_leb q q')
      ≡ false
    → (if not (text_eqb d' d)
        then text_leb d' d
        else if not (p' == p)
        then ltb p' p
        else text_leb q' q)
      ≡ true
lex_total d d' p p' q q' h =
    ground
      (arith, text_eqb_iff d d', text_eqb_iff d' d, text_order.total d d', text_order.total q q')

lex_trans :
    (d d' d'' : Text) (p p' p'' : ℕ) (q q' q'' : Text)
    → (if not (text_eqb d d')
        then text_leb d d'
        else if not (p == p')
        then ltb p p'
        else text_leb q q')
      ≡ true
    → (if not (text_eqb d' d'')
        then text_leb d' d''
        else if not (p' == p'')
        then ltb p' p''
        else text_leb q' q'')
      ≡ true
    → (if not (text_eqb d d'')
        then text_leb d d''
        else if not (p == p'')
        then ltb p p''
        else text_leb q q'')
      ≡ true
lex_trans d d' d'' p p' p'' q q' q'' h k = ground (
  arith,
  text_eqb_iff d d',
  text_eqb_iff d' d'',
  text_eqb_iff d d'',
  text_order.trans d d' d'',
  text_leb_antisymm d d',
  text_leb_antisymm d' d'',
  text_order.trans q q' q'',
)

pub block_leb-IsPreorder : IsPreorder block_leb
unfolding block_leb
block_leb-IsPreorder = record {
  total = λ a b.
      lex_total a.key.destination b.key.destination (port_rank a.key.port) (port_rank b.key.port)
        a.key.protocol b.key.protocol;
  trans = λ a b c.
      lex_trans a.key.destination b.key.destination c.key.destination (port_rank a.key.port)
        (port_rank b.key.port) (port_rank c.key.port) a.key.protocol b.key.protocol c.key.protocol;
}
