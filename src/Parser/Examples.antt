-- ===== src/Parser/Examples.antt =====
-- A command for an ATmega microcontroller.
use bigblackhardware.Base.{ℕ, ◌≡◌, refl, some, List, [], ◌∷◌, ◌++◌, length, get_or, arith}
use bigblackhardware.Parser.{create_memory_cmd}
use bigblackhardware.Parser.Pattern.{Token, one, zeros, input, addr, other, print_all, bits, bit_at}
use bigblackhardware.Parser.Command.{create_memory_cmd-bits}

-- "0100 0000" and two bits of the address, then eight input bits: a placeholder keeps the
-- digit `1` away from an address bit.
abbrev load_page : List Token
load_page =
    zeros
    ∷ one
    ∷ zeros
    ∷ zeros
    ∷ zeros
    ∷ zeros
    ∷ zeros
    ∷ zeros
    ∷ addr 12
    ∷ addr 3
    ∷ other b'x'
    ∷ one
    ∷ other b'o'
    ∷ addr 0
    ∷ other b'x'
    ∷ zeros
    ∷ input
    ∷ input
    ∷ input
    ∷ input
    ∷ input
    ∷ input
    ∷ input
    ∷ input
    ∷ []

create_memory_cmd-bits_example :
    (cmd : List ℕ) × (create_memory_cmd (print_all load_page ++ (0 ∷ [])) 28 0x1008 0xA5 ≡ some cmd)
    × (length cmd ≡ 4)
    × ((m : ℕ) → bit_at cmd m ≡ get_or (bits 0x1008 0xA5 0 load_page) m 0)
create_memory_cmd-bits_example =
    create_memory_cmd-bits 0x1008 0xA5 load_page (omega arith) (omega arith) (ground arith)
      (omega arith)

-- The same run gives the bytes 0x40, 0xD0 and 0xA5.
load_page_run :
    create_memory_cmd (print_all load_page ++ (0 ∷ [])) 28 0x1008 0xA5
    ≡ some (0x40 ∷ 0xD0 ∷ 0xA5 ∷ 0 ∷ [])
unfolding create_memory_cmd
load_page_run = refl
