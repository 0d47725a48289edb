-- ===== src/Pci/Msi/Memory.antt =====
-- A machine that keeps the words written to it, and the device's registers there.
use lemola_osv.Base.{ℕ, ◌/◌, ◌%◌, ◌^◌, ◌<◌, ◌≡◌, ◌≢◌, ◌∙◌, ap, arith}
use lemola_osv.Pci.{Machine, PciDevice, config_address, read_configuration_space, write_conf_reg}
use lemola_osv.Pci.Address.{config_address-fields}

-- A word that is written stands there and nowhere else.
pub record Keeps (M : Machine) : Type 0 where
  pub same : (s : M.State) (a v : ℕ) → v < 2 ^ 32 → M.read (M.write s a v) a ≡ v
  pub other : (s : M.State) (a b v : ℕ) → a ≢ b → M.read (M.write s a v) b ≡ M.read s b

-- The numbers of a device are in their ranges.
pub record IsPlace (d : PciDevice) : Type 0 where
  pub bus-lt : d.bus < 256
  pub device-lt : d.device < 32
  pub function-lt : d.function < 8

module _ (M : Machine) (K : Keeps M) (d : PciDevice) (place : IsPlace d) where
  apart :
      (r q : ℕ)
      → r < 256
      → q < 256
      → r / 4 ≢ q / 4
      → config_address d.bus d.device d.function r ≢ config_address d.bus d.device d.function q
  apart r q hr hq ne e =
      let a =
        (config_address-fields d.bus d.device d.function r place.bus-lt place.device-lt
          place.function-lt hr).4 in
      let b =
        (config_address-fields d.bus d.device d.function q place.bus-lt place.device-lt
          place.function-lt hq).4 in
      let c = ap (λ n. n % 2 ^ 8) e in ne (omega (arith, a, b, c))

  pub read-write_same :
      (s : M.State) (r v : ℕ)
      → v < 2 ^ 32
      → read_configuration_space M (write_conf_reg M s d r v) d r ≡ v
  read-write_same s r v small = K.same s (config_address d.bus d.device d.function r) v small

  pub read-write_other :
      (s : M.State) (r q v : ℕ)
      → r < 256
      → q < 256
      → r / 4 ≢ q / 4
      → read_configuration_space M (write_conf_reg M s d r v) d q ≡ read_configuration_space M s d q
  read-write_other s r q v hr hq ne =
      K.other s (config_address d.bus d.device d.function r)
        (config_address d.bus d.device d.function q) v (apart r q hr hq ne)

  pub read-write_past :
      (s : M.State) (r q v x : ℕ)
      → r < 256
      → q < 256
      → r / 4 ≢ q / 4
      → read_configuration_space M s d q ≡ x
      → read_configuration_space M (write_conf_reg M s d r v) d q ≡ x
  read-write_past s r q v x hr hq ne e = read-write_other s r q v hr hq ne ∙ e
