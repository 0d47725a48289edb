-- ===== src/Xhci/Controller/Handled.antt =====
-- The events of ports in kernel/src/xhci/controller.rs: what they do to the table of the ports.
use lemola_osv.Base.{
  ℕ, ◌-◌, ◌≡◌, inr, refl, sym, none, some, Bool, false, if◌then◌else◌, sub64, arith,
}
use lemola_osv.Xhci.Port.{
  PortConfigPhase, not_connected, waiting_addressed, resetting_port, enabling_slot,
  addressing_device, initializing_device, configuring_endpoints, configured, PortConfigureState,
  port_phase_at, set_port_phase_at,
}
use lemola_osv.Xhci.Controller.{
  XhciApi, Outcome, done, Controller, claim, lock, keep_changes, wait_for,
}
use lemola_osv.Xhci.Controller.Results.{
  On, On-hangs, On-step, On-run, On-if, On-done, On->>=, On-Option,
}
use lemola_osv.Xhci.Controller.Table.{
  Follows, Follows-refl, Follows-trans, set_port_phase_at-Follows,
}
use lemola_osv.Xhci.Controller.Events.{
  may_connect, reset_and_enable, event_not_connected, event_resetting, event_waiting,
  event_in_phase, process_port_status_change_event, Next, finished, release_place,
  reset_connection_at,
}
use lemola_osv.Xhci.Controller.Released.{After, After-trans, release-Released}
use lemola_osv.Xhci.Controller.Claims.{
  claim-Follows, may_connect-Follows, On-trans2, read_locked-Follows, reset_port_at-Follows,
  enable_slot_at-Follows,
}

module _ (X : XhciApi) where
  -- The table at `s`, followed by that of the result.
  abbrev Handled : ℕ → PortConfigureState → Outcome (Next × Controller X) → Type 0
  Handled p s m = On (λ r. After r.0 p s r.1.port_configure_state) m

  On-after :
      {p : ℕ} {s t : PortConfigureState} {m : Outcome (Next × Controller X)}
      → Follows p s t
      → Handled p t m
      → Handled p s m
  On-after f o = record { result = λ a e. After-trans a.0 _ _ _ _ f (o.result a e) }

  reset_and_enable-Handled :
      (fuel p : ℕ) (c : Controller X)
      → Handled p c.port_configure_state (reset_and_enable X fuel c p)
  unfolding reset_and_enable
  reset_and_enable-Handled fuel p c =
      On->>= (reset_port_at-Follows X fuel p c)
        (λ d f. On->>= (On-trans2 X f (enable_slot_at-Follows X fuel p d)) (λ r g. On-done g))

  event_not_connected-Handled :
      (fuel p : ℕ) (c : Controller X)
      → Handled p c.port_configure_state (event_not_connected X fuel c p)
  unfolding event_not_connected
  event_not_connected-Handled fuel p c = On-run (may_connect X c.port_configure_state p) (λ a e.
      let f = may_connect-Follows X p c.port_configure_state a.1 a.0 e in
      On-if a.0
        (On-after f (reset_and_enable-Handled fuel p (record c { port_configure_state = a.1 })))
        (On-done f))

  event_resetting-Handled :
      (fuel p : ℕ) (c : Controller X)
      → Handled p c.port_configure_state (event_resetting X fuel c p)
  unfolding event_resetting
  event_resetting-Handled fuel p c = On-run (claim X c.port_configure_state p) (λ a e.
      let f = claim-Follows X p c.port_configure_state a.1 a.0 e in
      On-if a.0
        (On->>=
          (On-trans2 X f
            (enable_slot_at-Follows X fuel p (record c { port_configure_state = a.1 })))
          (λ r g. On-done g))
        (On-done f))

  takes-Follows :
      (p : ℕ) (s : PortConfigureState)
      → s.addressing_port_index ≡ none
      → Follows p s (record s { addressing_port_index = some p })
  takes-Follows p s free = record {
    holder = λ q e. cc;
    free = λ e. inr refl;
    others = λ j ne. refl;
    size = refl;
  }

  event_waiting-Handled :
      (fuel port_id p : ℕ) (c : Controller X)
      → Handled p c.port_configure_state (event_waiting X fuel c port_id p)
  unfolding event_waiting
  event_waiting-Handled fuel port_id p c =
      On-Option c.port_configure_state.addressing_port_index
        (λ free.
          let f = takes-Follows p c.port_configure_state free in
          On-run
            (set_port_phase_at (record c.port_configure_state { addressing_port_index = some p }) p
              not_connected)
            (λ t e.
              let g = Follows-trans p _ _ _ f (set_port_phase_at-Follows p _ t not_connected e) in
              On-after g (reset_and_enable-Handled fuel p (record c { port_configure_state = t }))))
        (λ q e. On-done (Follows-refl p c.port_configure_state))

  locked-same :
      (c : Controller X) → On (λ d. d.port_configure_state ≡ c.port_configure_state) (lock X c)
  locked-same c = On-if c.registers_locked On-hangs (On-done refl)

  reset_connection_at-Handled :
      (fuel p : ℕ) (c : Controller X)
      → Handled p c.port_configure_state (reset_connection_at X fuel c p)
  unfolding reset_connection_at
  reset_connection_at-Handled fuel p c =
      On-run (set_port_phase_at (release_place X c.port_configure_state p) p not_connected) (λ t e.
        let f = release-Released X p c.port_configure_state t e in
        On->>= (locked-same (record c { port_configure_state = t })) (λ d same.
          On-run
            (X.update_volatile_at d.registers p
              (λ portsc. X.clear_connect_status_change (keep_changes X portsc)))
            (λ regs e2.
              On-step (wait_for X fuel regs p X.connect_status_change false)
                (λ regs2. On-done (rw same f)))))

  ended-Handled :
      (fuel : ℕ) (c : Controller X) (p : ℕ) (connecting : Bool)
      → Handled p c.port_configure_state
          (if connecting then done (finished, c) else reset_connection_at X fuel c p)
  ended-Handled fuel c p connecting =
      On-if connecting (On-done (Follows-refl p _)) (reset_connection_at-Handled fuel p c)

  event_in_phase-Handled :
      (fuel : ℕ) (phase : PortConfigPhase) (c : Controller X) (port_id p : ℕ) (connecting : Bool)
      → Handled p c.port_configure_state (event_in_phase X fuel phase c port_id p connecting)
  unfolding event_in_phase
  event_in_phase-Handled fuel not_connected c port_id p connecting =
      event_not_connected-Handled fuel p c
  event_in_phase-Handled fuel resetting_port c port_id p connecting =
      event_resetting-Handled fuel p c
  event_in_phase-Handled fuel waiting_addressed c port_id p connecting =
      event_waiting-Handled fuel port_id p c
  event_in_phase-Handled fuel enabling_slot c port_id p connecting =
      ended-Handled fuel c p connecting
  event_in_phase-Handled fuel addressing_device c port_id p connecting =
      ended-Handled fuel c p connecting
  event_in_phase-Handled fuel initializing_device c port_id p connecting =
      ended-Handled fuel c p connecting
  event_in_phase-Handled fuel configuring_endpoints c port_id p connecting =
      ended-Handled fuel c p connecting
  event_in_phase-Handled fuel configured c port_id p connecting = ended-Handled fuel c p connecting

  event-Handled :
      (fuel port_id : ℕ) (c : Controller X)
      → Handled
          (port_id - 1)
          c.port_configure_state
          (process_port_status_change_event X fuel c port_id)
  unfolding process_port_status_change_event
  event-Handled fuel port_id c = On-run (sub64 port_id 1) (λ p e.
      let same : p ≡ port_id - 1 = ground (arith, e) in
      rw (sym same) (
        On->>= (read_locked-Follows X p c) (λ r f.
          On-run (port_phase_at r.1.port_configure_state p) (λ phase e2.
            On-after f
              (event_in_phase-Handled fuel phase r.1 port_id p (X.current_connect_status r.0))))))

  -- An event of a port that is handled, up to the commands that disable slots: if they are not called for,
  -- the place of a port that is being configured stays with it, and a free one goes to no other port than
  -- the event's; if they are, the event's port is not connected and has lost the place, if it had it, and
  -- nobody else has. The phase of no other port changes.
  pub process_port_status_change_event-After :
      (fuel port_id : ℕ) (c d : Controller X) (next : Next)
      → process_port_status_change_event X fuel c port_id ≡ done (next, d)
      → After next (port_id - 1) c.port_configure_state d.port_configure_state
  process_port_status_change_event-After fuel port_id c d next run_eq =
      (event-Handled fuel port_id c).result (next, d) run_eq
