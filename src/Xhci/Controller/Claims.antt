-- ===== src/Xhci/Controller/Claims.antt =====
-- The place of the port that is configured, in kernel/src/xhci/controller.rs: who may take it.
use lemola_osv.Base.{
  ℕ, zero, suc, ◌≡◌, inr, refl, sym, Option, none, some, ok, Bool, not, ◌&&◌, List,
}
use lemola_osv.Xhci.Ring.{push}
use lemola_osv.Xhci.Port.{
  PortConfigPhase, not_connected, enabling_slot, PortConfigureState, port_phase_at,
  set_port_phase_at,
}
use lemola_osv.Xhci.Controller.{
  XhciApi, Outcome, Controller, lock, read_locked, claim, is_port_connected_at, reset_port_at,
  reset_connected, reset_registers, may_be_reset, enable_slot_at, push_enable_slot, keep_changes,
}
use lemola_osv.Xhci.Controller.Results.{
  On, On-run, On-step, On-if, On-done, On-panics, On-hangs, On->>=,
}
use lemola_osv.Xhci.Controller.Table.{
  Follows, Follows-refl, Follows-trans, set_port_phase_at-Follows, waits-Follows,
}
use lemola_osv.Xhci.Controller.Events.{may_connect}

module _ (X : XhciApi) where
  claim_table :
      (p : ℕ) (phases : List PortConfigPhase) (o : Option ℕ) (t : PortConfigureState) (can : Bool)
      → claim X (record { port_config_phase = phases; addressing_port_index = o }) p ≡ ok (can, t)
      → Follows p (record { port_config_phase = phases; addressing_port_index = o }) t
  unfolding claim
  claim_table p phases none t can run_eq =
      let same : record { port_config_phase = phases; addressing_port_index = some p } ≡ t = cc in
      rw (sym same) (record {
        holder = λ q taken. cc;
        free = λ e. inr refl;
        others = λ j ne. refl;
        size = refl;
      })
  claim_table p phases (some q) t can run_eq = waits-Follows p q _ t can run_eq

  pub claim-Follows :
      (p : ℕ) (s t : PortConfigureState) (can : Bool) → claim X s p ≡ ok (can, t) → Follows p s t
  claim-Follows p s t can run_eq =
      claim_table p s.port_config_phase s.addressing_port_index t can run_eq

  may_connect_table :
      (p : ℕ) (phases : List PortConfigPhase) (o : Option ℕ) (t : PortConfigureState) (can : Bool)
      → may_connect X (record { port_config_phase = phases; addressing_port_index = o }) p
        ≡ ok (can, t)
      → Follows p (record { port_config_phase = phases; addressing_port_index = o }) t
  unfolding may_connect
  may_connect_table p phases none t can run_eq =
      let same : record { port_config_phase = phases; addressing_port_index = none } ≡ t = cc in
      rw (sym same) (Follows-refl p _)
  may_connect_table p phases (some q) t can run_eq = waits-Follows p q _ t can run_eq

  pub may_connect-Follows :
      (p : ℕ) (s t : PortConfigureState) (can : Bool)
      → may_connect X s p ≡ ok (can, t)
      → Follows p s t
  may_connect-Follows p s t can run_eq =
      may_connect_table p s.port_config_phase s.addressing_port_index t can run_eq

  -- What a call for port `p` does to the table of a controller.
  abbrev pub FollowsAt : ℕ → Controller X → Controller X → Type 0
  FollowsAt p c d = Follows p c.port_configure_state d.port_configure_state

  pub On-trans :
      {p : ℕ} {s t : PortConfigureState} {m : Outcome (Controller X)}
      → Follows p s t
      → On (λ d. Follows p t d.port_configure_state) m
      → On (λ d. Follows p s d.port_configure_state) m
  On-trans f o = record { result = λ a e. Follows-trans _ _ _ _ f (o.result a e) }

  pub On-trans2 :
      {A : Type 0} {p : ℕ} {s t : PortConfigureState} {m : Outcome (A × Controller X)}
      → Follows p s t
      → On (λ r. Follows p t r.1.port_configure_state) m
      → On (λ r. Follows p s r.1.port_configure_state) m
  On-trans2 f o = record { result = λ a e. Follows-trans _ _ _ _ f (o.result a e) }

  lock-Follows : (p : ℕ) (c : Controller X) → On (FollowsAt p c) (lock X c)
  lock-Follows p c =
      On-if c.registers_locked On-hangs (On-done (Follows-refl p c.port_configure_state))

  pub read_locked-Follows :
      (p : ℕ) (c : Controller X) → On (λ r. FollowsAt p c r.1) (read_locked X c p)
  unfolding read_locked
  read_locked-Follows p c =
      On->>= (lock-Follows p c)
        (λ d f. On-run (X.read_volatile_at d.registers p) (λ r e. On-done f))

  is_port_connected_at-Follows :
      (p : ℕ) (c : Controller X) → On (λ r. FollowsAt p c r.1) (is_port_connected_at X c p)
  unfolding is_port_connected_at
  is_port_connected_at-Follows p c = On->>= (read_locked-Follows p c) (λ r f. On-done f)

  reset_connected-Follows :
      (fuel p : ℕ) (c : Controller X) → On (FollowsAt p c) (reset_connected X fuel c p)
  unfolding reset_connected
  reset_connected-Follows fuel p c = On->>= (read_locked-Follows p c) (λ r f.
      On-run (claim X r.1.port_configure_state p) (λ a e.
        let g = Follows-trans p _ _ _ f (claim-Follows p r.1.port_configure_state a.1 a.0 e) in
        On-if (not a.0) (On-done g) (
          On-run (port_phase_at a.1 p) (λ phase e2. On-if (not (may_be_reset X phase)) On-panics (
            On->>= (lock-Follows p (record r.1 { port_configure_state = a.1 })) (λ d h.
              On-step (reset_registers X fuel d.registers p)
                (λ regs. On-done (Follows-trans p _ _ _ g h))))))))

  pub reset_port_at-Follows :
      (fuel p : ℕ) (c : Controller X) → On (FollowsAt p c) (reset_port_at X fuel c p)
  unfolding reset_port_at
  reset_port_at-Follows fuel p c = On->>= (is_port_connected_at-Follows p c) (λ r f.
      On->>= (read_locked-Follows p r.1) (λ r2 f2.
        let g = Follows-trans p _ _ _ f f2 in
        On-if (not r.0) (On-done g) (
          On-if (not (X.connect_status_change r2.0)) (On-done g)
            (On-trans g (reset_connected-Follows fuel p r2.1)))))

  push_enable_slot-Follows :
      (p : ℕ) (c : Controller X) → On (λ r. FollowsAt p c r.1) (push_enable_slot X c p)
  unfolding push_enable_slot
  push_enable_slot-Follows p c =
      On-run
        (X.update_volatile_at c.registers p
          (λ portsc. X.clear_port_reset_change (keep_changes X portsc)))
        (λ regs e. On-run (set_port_phase_at c.port_configure_state p enabling_slot) (λ t e2.
          On-run (push X.links X.commands c.command_ring X.enable_slot) (λ r e3.
            On-run (X.ring_doorbell regs) (λ regs2 e4.
              On-done (set_port_phase_at-Follows p c.port_configure_state t enabling_slot e2)))))

  pub enable_slot_at-Follows :
      (fuel p : ℕ) (c : Controller X) → On (λ r. FollowsAt p c r.1) (enable_slot_at X fuel c p)
  unfolding enable_slot_at
  enable_slot_at-Follows zero p c = record { result = λ b e. cc }
  enable_slot_at-Follows (suc fuel) p c = On->>= (lock-Follows p c) (λ d f.
      On-run (X.read_volatile_at d.registers p) (λ r e.
        On-if (X.port_enabled_disabled r.0 && not (X.connect_status_change r.0))
          (On-trans2 f (push_enable_slot-Follows p (record d { registers = r.1 })))
          (On-run (set_port_phase_at d.port_configure_state p not_connected) (λ t e2.
            let g =
              Follows-trans p _ _ _ f
                (set_port_phase_at-Follows p d.port_configure_state t not_connected e2) in
            On->>=
              (On-trans g (
                reset_port_at-Follows fuel p
                  (record d { registers = r.1; port_configure_state = t })))
              (λ d2 g2. On-trans2 g2 (enable_slot_at-Follows fuel p d2))))))
