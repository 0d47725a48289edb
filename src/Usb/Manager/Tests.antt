-- ===== src/Usb/Manager/Tests.antt =====
-- Tests of the class drivers of kernel/src/usb/class_driver.rs: two mice and a hub in the slots 3, 5 and 6.
use lemola_osv.Base.{List, [], ◌∷◌, some, none, ok}
use lemola_osv.Usb.Manager.{ClassDriverManager, DriverKind, new, driver_kind}
use lemola_osv.Usb.Manager.Kinds.{Added, add_all, last_of, Told, driver_kind_lem}

abbrev empty : ClassDriverManager
empty = new (λ buf. ok none) (λ buf. ok none)

abbrev two_mice : List Added
two_mice =
    record { kind = DriverKind.mouse; slot_id = 3; b_max_packet_size = 8; addr = 1 }
    ∷ record { kind = DriverKind.mouse; slot_id = 5; b_max_packet_size = 8; addr = 2 }
    ∷ record { kind = DriverKind.hub; slot_id = 6; b_max_packet_size = 64; addr = 3 }
    ∷ []

driver_kind_lem_example : Told (some 5) none 3 (driver_kind (add_all empty two_mice) 3)
unfolding last_of new
driver_kind_lem_example = driver_kind_lem empty two_mice 3
