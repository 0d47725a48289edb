-- ===== src/Usb/Hub/Wired.antt =====
-- The ports of a hub that answers: kernel/src/usb/class_driver/hub.rs.
use mathlib.Core.List.{append_assoc, append-nil}
use lemola_osv.Base.{
  ℕ, zero, suc, ◌+◌, ◌≤◌, ◌≡◌, ◌∙◌, refl, sym, ap, List, [], ◌∷◌, ◌++◌, le→ltb, Bool-cases, inl,
  inr, arith,
}
use lemola_osv.Usb.Host.{UsbApi, Host, Outcome, done, Step, ◌>>=◌, ◌>>◌, pure}
use lemola_osv.Usb.Hub.{HubState, init_port, running, HubWorld, init_port_arm, arm, fsm}
use lemola_osv.Usb.Hub.Ports.{IsWired, ports, connected_of, passes}

module _ (U : UsbApi) (H : Host) (h : IsWired U H) where
  connected_of-cons :
      (p : ℕ) (ports : List ℕ)
      → connected_of U H h (p ∷ []) ++ connected_of U H h ports ≡ connected_of U H h (p ∷ ports)
  unfolding connected_of
  connected_of-cons p ports = elim (Bool-cases (h.connected p)) [
    | inl there ↦ rw there refl
    | inr gone ↦ rw gone refl
  ]

  -- So many calls of `fsm`.
  pub fsm_times : ℕ → Step (HubWorld H) (Unit {0})
  fsm_times zero = pure tt
  fsm_times (suc n) = fsm U H >> fsm_times n

  times_step :
      (n : ℕ) (w : HubWorld H) (state : HubState) {w' : HubWorld H}
      {o : Outcome (HubWorld H) (Unit {0})}
      → w.device.state ≡ state
      → arm U H state w ≡ done tt w'
      → fsm_times n w' ≡ o
      → fsm_times (suc n) w ≡ o
  unfolding fsm_times fsm
  times_step n w state at e rest =
      let e' : arm U H w.device.state w ≡ _ = ap (λ s. arm U H s w) at ∙ e in
      rw (e', ◌>>◌, ◌>>=◌) rest

  no_port :
      (p : ℕ) (w : HubWorld H)
      → w.device.number_of_ports ≤ p
      → init_port_arm U H p w ≡ done tt (record w { device = record w.device { state = running } })
  unfolding init_port_arm
  no_port p w none_left = rw (le→ltb _ _ none_left) refl

  no_times : (w : HubWorld H) → fsm_times zero w ≡ done tt w
  unfolding fsm_times
  no_times w = refl

  no_ports : (a : List ℕ) → a ++ connected_of U H h [] ≡ a
  unfolding connected_of
  no_ports a = append-nil a

  runs_from :
      (k p : ℕ) (w : HubWorld H)
      → w.device.state ≡ init_port p
      → w.device.number_of_ports ≡ p + k
      → (w' : HubWorld H) × (fsm_times (suc k) w ≡ done tt w')
        × (w'.device.state ≡ running)
        × (h.assigned w'.host ≡ h.assigned w.host ++ connected_of U H h (ports p k))
  unfolding arm ports
  runs_from zero p w at number =
      let w' = record w { device = record w.device { state = running } } in
      (
        w',
        times_step zero w (init_port p) at (rw (no_port p w (omega arith)) refl) (no_times w'),
        refl,
        sym (no_ports (h.assigned w.host)),
      )
  runs_from (suc k) p w at number =
      let s = passes U H h p w (omega arith) in
      let (w', e, runs, more) = runs_from k (p + 1) s.after s.state (omega (arith, s.number)) in
      (
        w',
        times_step (suc k) w (init_port p) at s.ends e,
        runs,
        more
            ∙ ap (λ a. a ++ connected_of U H h (ports (p + 1) k)) s.assigned
            ∙ append_assoc (h.assigned w.host) (connected_of U H h (p ∷ []))
                (connected_of U H h (ports (p + 1) k))
            ∙ ap (λ a. h.assigned w.host ++ a) (connected_of-cons p (ports (p + 1) k)),
      )

  -- From its first port on, a hub of n ports runs after n + 1 calls of `fsm`, and the host has
  -- given addresses at exactly the ports that are connected, in their order, if it answers every
  -- request and gives the addresses.
  pub fsm-assigns :
      (w : HubWorld H)
      → w.device.state ≡ init_port 0
      → (w' : HubWorld H) × (fsm_times (suc w.device.number_of_ports) w ≡ done tt w')
        × (w'.device.state ≡ running)
        × (h.assigned w'.host
            ≡ h.assigned w.host ++ connected_of U H h (ports 0 w.device.number_of_ports))
  fsm-assigns w at = runs_from w.device.number_of_ports 0 w at (omega arith)
