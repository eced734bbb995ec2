-- ===== src/Ctype/Tests.antt =====
-- Characters classified: 'Z' and the tab.
use eotan.Prelude.{◌+◌, ◌-◌, ◌≡◌, refl, arith, none, some, if◌then◌else◌}
use eotan.Ctype.{masked, or_zero, isspace, tolower, toupper, islower}
use eotan.Ctype.Laws.{Classified, within, byte_lem}

tab_is_space : isspace (some 9) ≡ 64
unfolding isspace masked or_zero
tab_is_space = refl

toupper_eof : toupper none ≡ none
unfolding toupper islower masked or_zero
toupper_eof = refl

byte_lem_example :
    Classified 90
    × (tolower (some 90) ≡ some (if within 65 90 90 then 90 + 32 else 90))
    × (toupper (some 90) ≡ some (if within 97 122 90 then 90 - 32 else 90))
    × (toupper (tolower (some 90)) ≡ toupper (some 90))
byte_lem_example = byte_lem 90 (omega arith)
