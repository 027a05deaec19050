-- ===== src/Pte/Addresses.antt =====
-- Virtual addresses of 4 KiB pages: composed from their indices and taken apart again.
use ych.Prelude.{ℕ, ◌+◌, ◌*◌, ◌/◌, ◌%◌, ◌^◌, ◌<◌, ◌≡◌, refl, bit_and, bit_or, arith, ◌∙◌}
use ych.Prelude.Bits.{zero-or}
use ych.Prelude.Masks.{and_low, or_fields, and_high}
use ych.Pte.{AddressMode, VirtualAddress, make_virtual, unmake_virtual}

mask9 : (x : ℕ) → bit_and x 511 ≡ x % 512
mask9 x = and_low 9 x

mask12 : (x : ℕ) → bit_and x 4095 ≡ x % 4096
mask12 x = and_low 12 x

-- `|` of a multiple of `2 ^ k` and a number below it.
or_at : (k x q r : ℕ) → x ≡ q * 2 ^ k → r < 2 ^ k → bit_or x r ≡ x + r
or_at k x q r e h = rw e (or_fields k q r h)

-- The address below bit 48 as a sum of its fields.
make_sum :
    (v : VirtualAddress)
    → v.pml4 < 512
    → make_virtual AddressMode.small v
      ≡ v.pml4 * 2 ^ 39
        + v.pdpt % 512 * 2 ^ 30
        + v.pd % 512 * 2 ^ 21
        + v.pt % 512 * 2 ^ 12
        + v.offset % 4096
unfolding make_virtual
make_sum v h =
    let sign : bit_and v.pml4 512 ≡ 0 = omega (arith, and_high 1 9 v.pml4) in
    let inside : v.pml4 % 512 ≡ v.pml4 = omega arith in
    let x1 = v.pml4 * 2 ^ 39 in
    let x2 = x1 + v.pdpt % 512 * 2 ^ 30 in
    let x3 = x2 + v.pd % 512 * 2 ^ 21 in
    let x4 = x3 + v.pt % 512 * 2 ^ 12 in
    let a : bit_or x1 (v.pdpt % 512 * 2 ^ 30) ≡ x2 = or_at 39 x1 v.pml4 _ refl (omega arith) in
    let b : bit_or x2 (v.pd % 512 * 2 ^ 21) ≡ x3 =
      or_at 30 x2 (v.pml4 * 2 ^ 9 + v.pdpt % 512) _ (omega arith) (omega arith) in
    let c : bit_or x3 (v.pt % 512 * 2 ^ 12) ≡ x4 =
      or_at 21 x3 (v.pml4 * 2 ^ 18 + v.pdpt % 512 * 2 ^ 9 + v.pd % 512) _ (omega arith)
        (omega arith) in
    let d : bit_or x4 (v.offset % 4096) ≡ x4 + v.offset % 4096 =
      or_at 12 x4 (v.pml4 * 2 ^ 27 + v.pdpt % 512 * 2 ^ 18 + v.pd % 512 * 2 ^ 9 + v.pt % 512) _
        (omega arith) (omega arith) in
    rw
      (
        sign,
        mask9 v.pml4,
        mask9 v.pdpt,
        mask9 v.pd,
        mask9 v.pt,
        mask12 v.offset,
        inside,
        zero-or x1,
        a,
        b,
        c,
        d,
      )
      refl

-- The indices of an address: their remainders by 512, and the offset's by 4096.
pub unmake-fields :
    (a : ℕ)
    → unmake_virtual AddressMode.small a ≡ record {
      pml4 = a / 2 ^ 39 % 512;
      pdpt = a / 2 ^ 30 % 512;
      pd = a / 2 ^ 21 % 512;
      pt = a / 2 ^ 12 % 512;
      offset = a % 4096;
    }
unfolding unmake_virtual
unmake-fields a =
    rw (mask9 (a / 2 ^ 39), mask9 (a / 2 ^ 30), mask9 (a / 2 ^ 21), mask9 (a / 2 ^ 12), mask12 a)
      refl

record_eq :
    (v w : VirtualAddress)
    → v.pml4 ≡ w.pml4
    → v.pdpt ≡ w.pdpt
    → v.pd ≡ w.pd
    → v.pt ≡ w.pt
    → v.offset ≡ w.offset
    → v ≡ w
record_eq v w a b c d e = rw (a, b, c, d, e) refl

-- Indices below 512 and an offset below 4096 come back out of the address they make.
pub unmake_virtual-make_virtual :
    (v : VirtualAddress)
    → v.pml4 < 512
    → v.pdpt < 512
    → v.pd < 512
    → v.pt < 512
    → v.offset < 4096
    → unmake_virtual AddressMode.small (make_virtual AddressMode.small v) ≡ v
unmake_virtual-make_virtual v a b c d e =
    let sum = make_sum v a in
    rw (unmake-fields (make_virtual AddressMode.small v)) (
      record_eq _ v (omega (arith, sum)) (omega (arith, sum)) (omega (arith, sum))
        (omega (arith, sum)) (omega (arith, sum)))

-- The indices of an address make the address back, without what is above bit 47: the upper half of
-- the address space, whose addresses have ones there, does not come back.
pub make_virtual-unmake_virtual :
    (a : ℕ) → make_virtual AddressMode.small (unmake_virtual AddressMode.small a) ≡ a % 2 ^ 48
make_virtual-unmake_virtual a =
    let fields = unmake-fields a in rw fields (make_sum _ (omega arith) ∙ omega arith)
