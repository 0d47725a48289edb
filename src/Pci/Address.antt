-- ===== src/Pci/Address.antt =====
-- The layout of the addresses of kernel/src/pci/register.rs.
use lemola_osv.Base.{ℕ, ◌+◌, ◌*◌, ◌/◌, ◌%◌, ◌^◌, ◌<◌, ◌≡◌, arith, bit_and, bit_or}
use lemola_osv.Base.Bits.{bit_and_high}
use lemola_osv.Base.Joins.{bit_or_shifted}
use lemola_osv.Pci.{config_address}

config_address_sum :
    (bus device function register : ℕ)
    → bus < 256
    → device < 32
    → function < 8
    → register < 256
    → config_address bus device function register
      ≡ 2 ^ 31 + bus * 2 ^ 16 + device * 2 ^ 11 + function * 2 ^ 8 + register / 4 * 4
unfolding config_address
config_address_sum bus device function register hb hd hf hr =
    let low : bit_and register 0xfc ≡ register / 4 * 4 = bit_and_high 2 6 register hr in
    let one : bit_or (1 * 2 ^ 31) (bus * 2 ^ 16) ≡ (2 ^ 15 + bus) * 2 ^ 16 =
      omega (arith, bit_or_shifted 31 1 (bus * 2 ^ 16) (omega arith)) in
    let two : bit_or ((2 ^ 15 + bus) * 2 ^ 16) (device * 2 ^ 11)
        ≡ ((2 ^ 15 + bus) * 2 ^ 5 + device) * 2 ^ 11 =
      omega (arith, bit_or_shifted 16 (2 ^ 15 + bus) (device * 2 ^ 11) (omega arith)) in
    let three : bit_or (((2 ^ 15 + bus) * 2 ^ 5 + device) * 2 ^ 11) (function * 2 ^ 8)
        ≡ (((2 ^ 15 + bus) * 2 ^ 5 + device) * 2 ^ 3 + function) * 2 ^ 8 =
      omega (
        arith,
        bit_or_shifted 11 ((2 ^ 15 + bus) * 2 ^ 5 + device) (function * 2 ^ 8) (omega arith),
      ) in
    let four =
      bit_or_shifted 8 (((2 ^ 15 + bus) * 2 ^ 5 + device) * 2 ^ 3 + function) (register / 4 * 4)
        (omega arith) in
    rw (one, two, three, low) (omega (arith, four))

-- The address of a register tells bus, device, function and the word of the register, each within
-- its bits, and has the enable bit.
pub config_address-fields :
    (bus device function register : ℕ)
    → bus < 256
    → device < 32
    → function < 8
    → register < 256
    → let a = config_address bus device function register in
      (a / 2 ^ 31 ≡ 1)
      × ((a / 2 ^ 16) % 2 ^ 8 ≡ bus)
      × ((a / 2 ^ 11) % 2 ^ 5 ≡ device)
      × ((a / 2 ^ 8) % 2 ^ 3 ≡ function)
      × (a % 2 ^ 8 ≡ register / 4 * 4)
config_address-fields bus device function register hb hd hf hr =
    let e = config_address_sum bus device function register hb hd hf hr in omega (arith, e)
