-- ===== src/Payload/Mcu.antt =====
-- get_mcu_info against the layout of the packet that it reads.
use mathlib.Core.List.{append_assoc}
use bigblackhardware.Base.{
  ℕ, suc, ◌+◌, ◌<◌, ◌≤◌, ◌≡◌, refl, ap, sym, ◌∙◌, false, some, List, [], ◌∷◌, ◌++◌, arith, ltb, pos,
  length, length-append, set_behind, drop, read?, replicate, All, get_elem?-of_drop, drop-suc,
  drop-add, read?-take, take-append,
}
use bigblackhardware.Packet.{Packet}
use bigblackhardware.Payload.{
  Pattern, AvrMcuInfo, Stray, copy_chars, read_pattern, terminate, get_mcu_info,
}

-- What the host sends, in order.
pub record McuWire : Type 0 where
  pub load_lo : List ℕ
  pub load_hi : List ℕ
  pub read_lo : List ℕ
  pub read_hi : List ℕ
  pub flash_wait : ℕ
  pub write : List ℕ
  pub read : List ℕ
  pub eeprom_wait : ℕ
  pub pgm_enable : List ℕ

-- A pattern goes behind its length, and more bytes follow it.
abbrev pub field : List ℕ → List ℕ → List ℕ
field chars rest = length chars ∷ (chars ++ rest)

abbrev pub layout : McuWire → List ℕ → List ℕ
layout w rest = field w.load_lo (
    field w.load_hi (
      field w.read_lo (
        field w.read_hi
          (w.flash_wait ∷ field w.write (field w.read (w.eeprom_wait ∷ (w.pgm_enable ++ rest)))))))

-- The stored form: the characters and a terminator, which calloc left there.
abbrev pub stored : List ℕ → Pattern
stored chars = record { len = length chars; text = chars ++ (0 ∷ []) }

abbrev pub info : McuWire → AvrMcuInfo
info w = record {
  flash_load_hi = stored w.load_hi;
  flash_load_lo = stored w.load_lo;
  flash_read_lo = stored w.read_lo;
  flash_read_hi = stored w.read_hi;
  flash_wait_ms = w.flash_wait;
  eeprom_write = stored w.write;
  eeprom_read = stored w.read;
  eeprom_wait_ms = w.eeprom_wait;
  pgm_enable = w.pgm_enable;
}

copy_chars_lem :
    (buf chars rest done : List ℕ) (k i : ℕ)
    → drop k buf ≡ chars ++ rest
    → i ≡ length done
    → copy_chars (length chars) buf k i (done ++ replicate (suc (length chars)) 0)
      ≡ some (done ++ (chars ++ (0 ∷ [])))
unfolding copy_chars
copy_chars_lem buf [] rest done k i e q = refl
copy_chars_lem buf (c ∷ chars) rest done k i e q =
    let next : suc k ≡ k + 1 = omega arith in
    rw
      (
        get_elem?-of_drop buf k c (chars ++ rest) e,
        set_behind done (replicate (suc (length chars)) 0) 0 c i q,
      )
      (copy_chars_lem buf chars rest (done ++ (c ∷ [])) (k + 1) (i + 1)
          (rw next at (drop-suc buf k c (chars ++ rest) e))
          (omega (arith, length-append done (c ∷ [])))
        ∙ ap some (append_assoc done (c ∷ []) (chars ++ (0 ∷ []))))

read_pattern_lem :
    (buf chars rest : List ℕ) (k : ℕ)
    → drop k buf ≡ field chars rest
    → (read_pattern buf k ≡ some (stored chars, k + 1 + length chars))
      × (drop (k + 1 + length chars) buf ≡ rest)
unfolding read_pattern
read_pattern_lem buf chars rest k e =
    let next : suc k ≡ k + 1 = omega arith in
    let behind : drop (k + 1) buf ≡ chars ++ rest =
      rw next at (drop-suc buf k (length chars) (chars ++ rest) e) in
    (
      rw (
        get_elem?-of_drop buf k (length chars) (chars ++ rest) e,
        copy_chars_lem buf chars rest [] (k + 1) 0 behind refl,
      ),
      drop-add buf (k + 1) chars rest (k + 1 + length chars) behind refl,
    )

abbrev pub stray : List ℕ → ℕ → Stray
stray chars index = record { block_size = length chars + 1; index = index }

terminate-stray :
    (k : ℕ) (chars : List ℕ) (strays : List Stray)
    → length chars < k
    → terminate k (stored chars) strays ≡ (stored chars, strays ++ (stray chars k ∷ []))
unfolding terminate
terminate-stray k chars strays h =
    let size : length (chars ++ (0 ∷ [])) ≡ length chars + 1 = length-append chars (0 ∷ []) in
    let out : ltb k (length chars + 1) ≡ false = ground arith in rw (size, out)

-- The indices behind the six patterns.
abbrev load_lo_end : McuWire → ℕ
load_lo_end w = 0 + 1 + length w.load_lo

abbrev load_hi_end : McuWire → ℕ
load_hi_end w = load_lo_end w + 1 + length w.load_hi

abbrev read_lo_end : McuWire → ℕ
read_lo_end w = load_hi_end w + 1 + length w.read_lo

abbrev read_hi_end : McuWire → ℕ
read_hi_end w = read_lo_end w + 1 + length w.read_hi

abbrev write_end : McuWire → ℕ
write_end w = read_hi_end w + 1 + 1 + length w.write

abbrev read_end : McuWire → ℕ
read_end w = write_end w + 1 + length w.read

-- The six terminators, at indices that count from the start of the packet.
abbrev pub strays : McuWire → List Stray
strays w =
    stray w.load_lo (load_lo_end w)
    ∷ stray w.load_hi (load_hi_end w)
    ∷ stray w.read_lo (read_lo_end w)
    ∷ stray w.load_hi (read_hi_end w)
    ∷ stray w.write (write_end w)
    ∷ stray w.read (read_end w)
    ∷ []

drop-next : (buf : List ℕ) (k x : ℕ) (xs : List ℕ) → drop k buf ≡ x ∷ xs → drop (k + 1) buf ≡ xs
drop-next buf k x xs e = drop-add buf k (x ∷ []) xs (k + 1) e refl

read_four :
    (buf : List ℕ) (k : ℕ) (xs rest : List ℕ)
    → length xs ≡ 4
    → drop k buf ≡ xs ++ rest
    → read? 4 (drop k buf) ≡ some xs
read_four buf k xs rest four e =
    rw (e, read?-take 4 (xs ++ rest) (omega (arith, length-append xs rest)))
      (ap some (take-append xs rest 4 (sym four)))

-- A packet laid out as the host sends it is read back: every pattern, every wait and the enable
-- command. But all six terminators are written outside of their blocks, at an index that counts
-- from the start of the packet; the terminators that later code relies on are those of calloc.
pub get_mcu_info-layout :
    (p : Packet) (w : McuWire) (rest : List ℕ)
    → p.packet_data ≡ layout w rest
    → length w.pgm_enable ≡ 4
    → (get_mcu_info p ≡ some (pos 0, info w, strays w))
      × All (λ (s : Stray). s.block_size ≤ s.index) (strays w)
unfolding get_mcu_info
get_mcu_info-layout p w rest e four =
    let buf = p.packet_data in
    let (lo, d1) = read_pattern_lem buf w.load_lo _ 0 e in
    let (hi, d2) = read_pattern_lem buf w.load_hi _ (load_lo_end w) d1 in
    let (rlo, d3) = read_pattern_lem buf w.read_lo _ (load_hi_end w) d2 in
    let (rhi, d4) = read_pattern_lem buf w.read_hi _ (read_lo_end w) d3 in
    let (write, d5) =
      read_pattern_lem buf w.write _ (read_hi_end w + 1)
        (drop-next buf (read_hi_end w) w.flash_wait _ d4) in
    let (read, d6) = read_pattern_lem buf w.read _ (write_end w) d5 in
    (
      rw (
        lo,
        terminate-stray (load_lo_end w) w.load_lo [] (omega arith),
        hi,
        terminate-stray (load_hi_end w) w.load_hi _ (omega arith),
        rlo,
        terminate-stray (read_lo_end w) w.read_lo _ (omega arith),
        rhi,
        terminate-stray (read_hi_end w) w.load_hi _ (omega arith),
        get_elem?-of_drop buf (read_hi_end w) w.flash_wait _ d4,
        write,
        terminate-stray (write_end w) w.write _ (omega arith),
        read,
        terminate-stray (read_end w) w.read _ (omega arith),
        get_elem?-of_drop buf (read_end w) w.eeprom_wait _ d6,
        read_four buf (read_end w + 1) w.pgm_enable rest four
            (drop-next buf (read_end w) w.eeprom_wait _ d6),
      ),
      omega arith,
    )
