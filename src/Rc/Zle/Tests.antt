-- ===== src/Rc/Zle/Tests.antt =====
-- The compressors at work.
use eotan.Prelude.{ℕ, ◌≡◌, arith, refl, some, List, [], ◌∷◌}
use eotan.Bits.{set_bit}
use eotan.Rc.Zle
use eotan.Rc.Zle.Laws.{decode-encode}

abbrev plain : List ℕ
plain = 7 ∷ 0 ∷ 0 ∷ 0 ∷ 0xfe ∷ 0xff ∷ 0 ∷ []

encoded : Zle.encode plain ≡ some (8 ∷ 0 ∷ 0 ∷ 0xff ∷ 0 ∷ 0xff ∷ 1 ∷ 0 ∷ [])
unfolding Zle.encode Zle.encode_from Zle.encode_got Zle.encode_run Zle.bgetc Zle.bungetc Zle.emit
    Zle.unless_full Zle.digits Zle.count_zeros Zle.count_got Zle.escape
encoded = refl

decoded : Zle.decode (8 ∷ 0 ∷ 0 ∷ 0xff ∷ 0 ∷ 0xff ∷ 1 ∷ 0 ∷ []) ≡ some plain
unfolding Zle.decode Zle.decode_from Zle.decode_got Zle.decode_run Zle.decode_escape Zle.bgetc
    Zle.bungetc Zle.emit Zle.unless_full Zle.read_bits Zle.bits_got Zle.or_shift set_bit
decoded = refl

decode-encode_example :
    (bytes : List ℕ) × (Zle.encode plain ≡ some bytes) × (Zle.decode bytes ≡ some plain)
decode-encode_example = decode-encode plain (omega arith) (omega arith)
